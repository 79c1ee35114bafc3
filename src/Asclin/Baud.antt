-- ===== src/Asclin/Baud.antt =====
-- The numerator that tc275_lite/drivers/asclin/src/server.c chooses for a baud rate: the rate on the
-- line is the clock times the numerator over 3072 times 16.
use ulmk_boards.Base.{
  ℕ, suc, ◌+◌, ◌-◌, ◌*◌, ◌/◌, ◌≤◌, ◌<◌, ◌≡◌, ap, sym, inl, inr, true, false, arith, ◌==◌, ltb, ◌⊎◌,
}
use native.Mathlib.Nat.{div-mul-le_self, lt-div-mul-add, mul-le-mul_right, suc-mul}
use native.Mathlib.Decide.{dec_lt, ℕ_discrete}
use ulmk_boards.Base.Word.{u32}
use ulmk_boards.Asclin.Server.{clamp_numer, numer_of, denom}

abbrev pub distance : ℕ → ℕ → ℕ
distance x y = x - y + (y - x)

-- A multiple of the clock against another one.
apart : (q n fa : ℕ) → q < n → q * fa + fa ≤ n * fa
apart q n fa h = omega (arith, mul-le-mul_right {m = suc q} {n = n} fa h, suc-mul q fa)

-- The quotient rounded to the nearest, between 1 and 4095: no other such number is nearer.
pub clamped-nearest :
    (target fa q n r : ℕ)
    → n * fa ≤ target + fa / 2
    → target + fa / 2 < n * fa + fa
    → 1 ≤ q
    → q ≤ 4095
    → ((n ≡ 0) × (r ≡ 1)) ⊎ ((r ≡ n) ⊎ ((4095 < n) × (r ≡ 4095)))
    → distance (r * fa) target ≤ distance (q * fa) target
clamped-nearest target fa q n r below above lo hi (inl (none, one)) =
    let base : 0 * fa ≡ n * fa = ap (λ k. k * fa) (sym none) in
    let first : 1 * fa ≡ r * fa = ap (λ k. k * fa) (sym one) in
    let more : 1 * fa ≤ q * fa = mul-le-mul_right {m = 1} {n = q} fa lo in
    omega (arith, base, first, more, below, above)
clamped-nearest target fa q n r below above lo hi (inr (inl e)) =
    let same : r * fa ≡ n * fa = ap (λ k. k * fa) e in
    elim (dec_lt q n) [
      | yes less ↦ omega (arith, same, apart q n fa less, below, above)
      | no more ↦ elim (dec_lt n q) [
        | yes less ↦ omega (arith, same, apart n q fa less, below, above)
        | no other ↦
            let eq : q * fa ≡ n * fa = ap (λ k. k * fa) {x = q} {y = n} (omega arith) in
            omega (arith, same, eq)
      ]
    ]
clamped-nearest target fa q n r below above lo hi (inr (inr (big, top))) =
    let last : r * fa ≡ 4095 * fa = ap (λ k. k * fa) top in
    let under : 4096 * fa ≤ n * fa = mul-le-mul_right {m = 4096} {n = n} fa big in
    let less : q * fa ≤ 4095 * fa = mul-le-mul_right {m = q} {n = 4095} fa hi in
    omega (arith, last, under, less, below, above)

quotient_small : (target fa : ℕ) → target ≤ 49152 * fa → 0 < fa → (target + fa / 2) / fa ≤ 49152
quotient_small target fa h pos = elim (dec_lt 49152 ((target + fa / 2) / fa)) [
  | yes big ↦ absurd (
      omega (
        arith,
        mul-le-mul_right {m = 49153} {n = (target + fa / 2) / fa} fa big,
        div-mul-le_self (target + fa / 2) fa,
      ))
  | no small ↦ omega arith
]

clamp_numer-cases :
    (n : ℕ)
    → ((n ≡ 0) × (clamp_numer n ≡ 1))
      ⊎ (((0 < n) × ((n ≤ 4095) × (clamp_numer n ≡ n))) ⊎ ((4095 < n) × (clamp_numer n ≡ 4095)))
unfolding clamp_numer
clamp_numer-cases n = elim (ℕ_discrete n 0) [
  | yes e ↦ inl (e, rw e)
  | no ne ↦
      let t : (n == 0) ≡ false = ground (arith, ne) in
      elim (dec_lt 4095 n) [
        | yes big ↦ let u : ltb 4095 n ≡ true = ground (arith, big) in inr (inr (big, rw (t, u)))
        | no small ↦
            let u : ltb 4095 n ≡ false = ground (arith, small) in
            inr (inl (omega arith, (omega arith, rw (t, u))))
      ]
]

-- For a clock that is not 0 and a baud rate up to the clock, the numerator is from 1 to 4095, and
-- no other number in that range gives a rate, the clock times the number over 3072 times 16, that
-- is nearer to the baud rate.
pub numer_of-nearest :
    (baud fa_hz q : ℕ)
    → 0 < fa_hz
    → baud ≤ fa_hz
    → 1 ≤ q
    → q ≤ 4095
    → (1 ≤ numer_of baud fa_hz)
      × ((numer_of baud fa_hz ≤ 4095)
          × (distance (numer_of baud fa_hz * fa_hz) (baud * denom * 16)
              ≤ distance (q * fa_hz) (baud * denom * 16)))
unfolding numer_of
numer_of-nearest baud fa_hz q pos most lo hi =
    let target = baud * denom * 16 in
    let n = (target + fa_hz / 2) / fa_hz in
    let few : n ≤ 49152 = quotient_small target fa_hz (omega arith) pos in
    let fits : u32 n ≡ n = omega arith in
    let below : n * fa_hz ≤ target + fa_hz / 2 = div-mul-le_self (target + fa_hz / 2) fa_hz in
    let above : target + fa_hz / 2 < n * fa_hz + fa_hz = lt-div-mul-add pos in
    let near = clamped-nearest target fa_hz q n (clamp_numer n) below above lo hi in
    rw fits (elim (clamp_numer-cases n) [
      | inl (z, e) ↦ (omega arith, (omega arith, near (inl (z, e))))
      | inr (inl (l, (h, e))) ↦ (omega arith, (omega arith, near (inr (inl e))))
      | inr (inr (b, e)) ↦ (omega arith, (omega arith, near (inr (inr (b, e)))))
    ])
