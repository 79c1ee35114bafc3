-- ===== src/Gpio/Mask.antt =====
-- The mask of armed channels in tc275_lite/drivers/gpio/src/server.c, over all of its values.
use ulmk_boards.Base.{
  ℕ, zero, suc, ◌+◌, ◌≤◌, ◌<◌, ◌≡◌, refl, ap, ◌∙◌, Bool, true, false, not, ◌&&◌, arith, ltb, ◌==◌,
  if◌then◌else◌, bit_and, bit_or,
}
use native.Mathlib.Decide.{ℕ_discrete}
use ulmk_boards.Base.Word.{u8, ◌<<◌}

-- Whether each of `left` numbers from `start` on passes.
every_from : ℕ → ℕ → (ℕ → Bool) → Bool
every_from start zero passes = true
every_from start (suc left) passes =
    if passes start then every_from (suc start) left passes else false

every_from-passes :
    (start left : ℕ) (passes : ℕ → Bool) (x : ℕ)
    → every_from start left passes ≡ true
    → start ≤ x
    → x < start + left
    → passes x ≡ true
unfolding every_from
every_from-passes start zero passes x h lo hi = absurd (omega arith)
every_from-passes start (suc left) passes x h lo hi = elim (ℕ_discrete x start) [
  | yes first ↦ ap passes first ∙ ground (arith, h)
  | no later ↦
      every_from-passes (suc start) left passes x (ground (arith, h)) (omega arith) (omega arith)
]

-- Whether a channel's bit is clear.
abbrev pub clear : ℕ → ℕ → Bool
clear mask ch = bit_and mask (u8 (1 << ch)) == 0

abbrev same_bit : ℕ → ℕ → ℕ → Bool
same_bit m c d =
    let now = clear (bit_or m (u8 (1 << c))) d in
    ltb (bit_or m (u8 (1 << c))) 256
    && (if d == c then not now else if clear m d then now else not now)

table : every_from 0 256 (λ m. every_from 0 8 (λ c. every_from 0 8 (λ d. same_bit m c d))) ≡ true
unfolding every_from
table = refl

mask-same_bit : (m c d : ℕ) → m < 256 → c < 8 → d < 8 → same_bit m c d ≡ true
mask-same_bit m c d p q r =
    let rows : ℕ → Bool = λ m. every_from 0 8 (λ c. every_from 0 8 (λ d. same_bit m c d)) in
    let row = every_from-passes 0 256 rows m table (omega arith) p in
    let cell =
      every_from-passes 0 8 (λ c. every_from 0 8 (λ d. same_bit m c d)) c row (omega arith) q in
    every_from-passes 0 8 (λ d. same_bit m c d) d cell (omega arith) r

pub arm-lt : (m c : ℕ) → m < 256 → c < 8 → bit_or m (u8 (1 << c)) < 256
arm-lt m c p q = let h = mask-same_bit m c c p q q in ground (arith, h)

pub arm_self : (m c : ℕ) → m < 256 → c < 8 → clear (bit_or m (u8 (1 << c))) c ≡ false
arm_self m c p q = let h = mask-same_bit m c c p q q in ground (arith, h)

pub arm_other :
    (m c d : ℕ)
    → m < 256
    → c < 8
    → d < 8
    → (d == c) ≡ false
    → clear (bit_or m (u8 (1 << c))) d ≡ clear m d
arm_other m c d p q r ne = let h = mask-same_bit m c d p q r in ground (arith, h)

none_table : every_from 0 8 (λ c. clear 0 c) ≡ true
unfolding every_from
none_table = refl

pub clear-zero : (c : ℕ) → c < 8 → clear 0 c ≡ true
clear-zero c h = every_from-passes 0 8 (λ c. clear 0 c) c none_table (omega arith) h
