-- ===== src/Console/Decimal.antt =====
-- What the number conversions of witte_linum/board_console.c write, read back as numbers.
use ulmk_boards.Base.{
  ℕ, zero, suc, ◌+◌, ◌-◌, ◌*◌, ◌/◌, ◌%◌, ◌^◌, ◌≤◌, ◌<◌, ◌≡◌, ◌≢◌, refl, ap, ◌∙◌, ◌⊎◌, inl, inr,
  List, [], ◌∷◌, ◌++◌, arith, ltb, leb, ◌==◌, Bool-cases, length, take, take_all, length-append,
}
use ulmk_boards.Base.Word.{add32}
use ulmk_boards.Console.Digits.{digits_10, fmt_u32, fmt_i32}
use ulmk_boards.Console.Buffer.{u32_text, i32_text, fmt_u32-Appends, fmt_i32-Appends}

-- The number that a text stands for, most significant digit first.
abbrev pub read_10 : ℕ → List ℕ → ℕ
read_10 acc [] = acc
read_10 acc (c ∷ cs) = read_10 (acc * 10 + (c - b'0')) cs

abbrev pub AllDigits : List ℕ → Type 0
AllDigits [] = Unit {0}
AllDigits (c ∷ cs) = (b'0' ≤ c) × (c ≤ b'9') × AllDigits cs

-- The first digit is not 0.
abbrev pub Leads : List ℕ → Type 0
Leads [] = Unit {0}
Leads (c ∷ cs) = c ≢ b'0'

tenth : (left v : ℕ) → v < 10 ^ suc left → v / 10 < 10 ^ left
tenth left v h = omega arith

read_10-digits_10 :
    (left v : ℕ) (tmp : List ℕ) → v < 10 ^ left → read_10 0 (digits_10 left v tmp) ≡ read_10 v tmp
unfolding digits_10
read_10-digits_10 zero v tmp h = ap (λ k. read_10 k tmp) {x = 0} (omega arith)
read_10-digits_10 (suc left) v tmp h = elim (Bool-cases (ltb 0 v)) [
  | inr zero_left ↦ rw zero_left (ap (λ k. read_10 k tmp) {x = 0} (ground arith))
  | inl more ↦ rw more (
      read_10-digits_10 left (v / 10) ((b'0' + v % 10) ∷ tmp) (tenth left v h)
      ∙ ap (λ k. read_10 k tmp) {x = v / 10 * 10 + (b'0' + v % 10 - b'0')} (omega arith))
]

digits_10-AllDigits : (left v : ℕ) (tmp : List ℕ) → AllDigits tmp → AllDigits (digits_10 left v tmp)
unfolding digits_10
digits_10-AllDigits zero v tmp h = h
digits_10-AllDigits (suc left) v tmp h = elim (Bool-cases (ltb 0 v)) [
  | inr zero_left ↦ rw zero_left h
  | inl more ↦
      rw more
        (digits_10-AllDigits left (v / 10) ((b'0' + v % 10) ∷ tmp) (omega arith, omega arith, h))
]

length-digits_10 : (left v : ℕ) (tmp : List ℕ) → length (digits_10 left v tmp) ≤ left + length tmp
unfolding digits_10
length-digits_10 zero v tmp = omega arith
length-digits_10 (suc left) v tmp =
    ground (arith, length-digits_10 left (v / 10) ((b'0' + v % 10) ∷ tmp))

digits_10-Leads :
    (left v : ℕ) (tmp : List ℕ) → v < 10 ^ left → (0 < v) ⊎ Leads tmp → Leads (digits_10 left v tmp)
unfolding digits_10
digits_10-Leads zero v tmp h (inl p) = absurd (omega arith)
digits_10-Leads zero v tmp h (inr p) = p
digits_10-Leads (suc left) v tmp h p = elim (Bool-cases (ltb 0 v)) [
  | inr zero_left ↦ rw zero_left (elim p [ inl q ↦ absurd (ground arith) | inr q ↦ q ])
  | inl more ↦ rw more (
      digits_10-Leads left (v / 10) ((b'0' + v % 10) ∷ tmp) (tenth left v h)
        (elim (Bool-cases (ltb 0 (v / 10))) [
          | inl big ↦ inl (ground arith)
          | inr small ↦ inr (λ e. absurd (ground arith))
        ]))
]

-- The empty text reads back as 0.
nonempty : (v : ℕ) (ds : List ℕ) → read_10 0 ds ≡ v → 0 < v → 0 < length ds
nonempty v [] e h = absurd (omega (arith, e, h))
nonempty v (d ∷ ds) e h = omega arith

-- A text of at least one digit that stands for `v` in base ten, with no leading zero but that of 0 itself.
pub record IsDecimal (v : ℕ) (ds : List ℕ) : Type 0 where
  pub value : read_10 0 ds ≡ v
  pub some_digit : 0 < length ds
  pub digits : AllDigits ds
  pub short : length ds ≤ 10
  pub leads : (ds ≡ b'0' ∷ []) ⊎ Leads ds

pub u32_text-IsDecimal : (v : ℕ) → v < 2 ^ 32 → IsDecimal v (u32_text v)
unfolding u32_text
u32_text-IsDecimal v h = elim (Bool-cases (v == 0)) [
  | inl nothing ↦ rw nothing (record {
    value = ground arith;
    some_digit = omega arith;
    digits = omega arith;
    short = omega arith;
    leads = inl refl;
  })
  | inr something ↦ rw something (record {
    value = read_10-digits_10 10 v [] (omega arith);
    some_digit =
        nonempty v (digits_10 10 v []) (read_10-digits_10 10 v [] (omega arith)) (ground arith);
    digits = digits_10-AllDigits 10 v [] tt;
    short = omega (arith, length-digits_10 10 v []);
    leads = inr (digits_10-Leads 10 v [] (omega arith) (inl (ground arith)));
  })
]

-- Where ten bytes are left, fmt_u32 appends the decimal text of any 32-bit number: digits that
-- read back as the number, at least one and at most ten, with no leading zero but that of 0
-- itself.
pub fmt_u32-IsDecimal :
    (cap v : ℕ) (out : List ℕ)
    → v < 2 ^ 32
    → length out + 10 ≤ cap
    → (ds : List ℕ) × (fmt_u32 cap v out ≡ out ++ ds) × IsDecimal v ds
fmt_u32-IsDecimal cap v out h room =
    let d = u32_text-IsDecimal v h in
    (
      u32_text v,
      fmt_u32-Appends v cap out (omega arith)
          ∙ take_all cap (out ++ u32_text v)
              (omega (arith, length-append out (u32_text v), d.short)),
      d,
    )

-- Where eleven bytes are left, fmt_i32 appends the decimal text of a 32-bit pattern below 2 ^ 31,
-- and of any other 32-bit pattern a minus sign and the decimal text of what it lacks to 2 ^ 32.
pub fmt_i32-IsDecimal :
    (cap p : ℕ) (out : List ℕ)
    → p < 2 ^ 32
    → length out + 11 ≤ cap
    → (ds : List ℕ) × ((p < 2 ^ 31) × (fmt_i32 cap p out ≡ out ++ ds) × IsDecimal p ds
        ⊎ (2 ^ 31 ≤ p) × (fmt_i32 cap p out ≡ out ++ b'-' ∷ ds) × IsDecimal (2 ^ 32 - p) ds)
fmt_i32-IsDecimal cap p out h room = elim (Bool-cases (leb (2 ^ 31) p)) [
  | inr plus ↦
      let d = u32_text-IsDecimal p h in
      let text : i32_text p ≡ u32_text p = unfold i32_text in rw plus refl in
      (
        u32_text p,
        inl (
          ground arith,
          (fmt_i32-Appends p cap out (omega arith)
              ∙ ap (λ t. take cap (out ++ t)) text
              ∙ take_all cap (out ++ u32_text p)
                  (omega (arith, length-append out (u32_text p), d.short))),
          d,
        ),
      )
  | inl minus ↦
      let size : add32 (2 ^ 32 - 1 - p) 1 ≡ 2 ^ 32 - p = ground arith in
      let d = u32_text-IsDecimal (2 ^ 32 - p) (ground arith) in
      let text : i32_text p ≡ b'-' ∷ u32_text (2 ^ 32 - p) =
        unfold i32_text in rw minus (ap (λ k. b'-' ∷ u32_text k) size) in
      (
        u32_text (2 ^ 32 - p),
        inr (
          ground arith,
          (fmt_i32-Appends p cap out (omega arith)
              ∙ ap (λ t. take cap (out ++ t)) text
              ∙ take_all cap (out ++ b'-' ∷ u32_text (2 ^ 32 - p))
                  (omega (arith, length-append out (b'-' ∷ u32_text (2 ^ 32 - p)), d.short))),
          d,
        ),
      )
]
