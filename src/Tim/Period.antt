-- ===== src/Tim/Period.antt =====
-- The prescaler and the reload value of witte_linum/drivers/pwm/src/server.c.
use ulmk_boards.Base.{
  ℕ, ◌+◌, ◌-◌, ◌*◌, ◌/◌, ◌≤◌, ◌<◌, ◌≡◌, ap, sym, subst, ◌∙◌, false, some, ltb, ◌==◌, arith,
}
use native.Mathlib.Nat.{
  div-mul-le_self, lt-div-mul-add, div-lt_iff_lt-mul, le-div_iff_mul-le, mul_comm, mul-add, mul-one,
}
use ulmk_boards.Base.Word.{add32}
use ulmk_boards.Tim.Server.{divide, pwm_tim_clk_hz}

-- For 2 ticks up to those of the clock in a second, a prescaler and a reload value are found that
-- fit their 16-bit registers; the period that they make is at most the ticks asked for, and one
-- step of the reload value more would be over it.
pub divide-near :
    (ticks : ℕ)
    → 2 ≤ ticks
    → ticks ≤ pwm_tim_clk_hz
    → (psc : ℕ) × (arr : ℕ) × (divide ticks ≡ some (psc, arr))
      × (psc ≤ 0xFFFF)
      × (1 ≤ arr)
      × (arr ≤ 0xFFFF)
      × ((psc + 1) * (arr + 1) ≤ ticks)
      × (ticks < (psc + 1) * (arr + 2))
unfolding divide
divide-near ticks low high =
    let up = add32 ticks 65535 / 65536 in
    let q = ticks / up in
    let pos : 0 < up = omega (arith, low, high) in
    let positive : (up == 0) ≡ false = ground (arith, pos) in
    let enough : 2 ≤ q = (le-div_iff_mul-le pos).1 (omega arith) in
    let fits : q < 65537 = (div-lt_iff_lt-mul pos).1 (omega arith) in
    let below : q * up ≤ ticks = div-mul-le_self ticks up in
    let above : ticks < q * up + up = lt-div-mul-add pos in
    let over : up - 1 + 1 ≡ up = omega arith in
    let reload : q - 1 + 1 ≡ q = omega arith in
    let next : q - 1 + 2 ≡ q + 1 = omega arith in
    let many : ltb ticks 2 ≡ false = ground (arith, low) in
    let arr_pos : (q - 1 == 0) ≡ false = ground (arith, enough) in
    let arr_fits : ltb 0xFFFF (q - 1) ≡ false = ground (arith, fits) in
    let psc_fits : ltb 0xFFFF (up - 1) ≡ false = ground (arith, high) in
    (
      up - 1,
      q - 1,
      rw (many, positive, over, arr_pos, arr_fits, psc_fits),
      omega arith,
      omega arith,
      omega arith,
      subst (λ (t : ℕ). t * (q - 1 + 1) ≤ ticks) (sym over)
          (subst (λ (t : ℕ). up * t ≤ ticks) (sym reload) (omega (arith, mul_comm up q))),
      subst (λ (t : ℕ). ticks < t * (q - 1 + 2)) (sym over)
          (subst (λ (t : ℕ). ticks < up * t) (sym next)
            (omega (arith, mul_comm up q, mul-suc_lem up q))),
    )
  where
    mul-suc_lem : (u v : ℕ) → u * (v + 1) ≡ u * v + u
    mul-suc_lem u v = mul-add u v 1 ∙ ap (λ (t : ℕ). u * v + t) (mul-one u)
