-- ===== src/Wire/Bytes.antt =====
-- One byte of a word: reading it, and or-ing it into a word where it is still zero.
use ulmk_boards.Base.{
  ℕ, zero, suc, ◌+◌, ◌*◌, ◌/◌, ◌%◌, ◌^◌, ◌<◌, ◌≡◌, ◌≢◌, ap, ◌∙◌, bit_and, bit_or, arith,
}
use native.Mathlib.Nat.{one-le-pow, zero-div}
use ulmk_boards.Base.Word.{◌<<◌, ◌>>>◌, u8}
use ulmk_boards.Base.Bits.{fill_field, and_low}

-- `(uint8_t)((w >> (k * 8)) & 0xFF)`.
unfoldable pub byte : ℕ → ℕ → ℕ
byte k w = u8 (bit_and (w >>> (k * 8)) 0xFF)

-- `w |= d << (k * 8)`.
unfoldable pub or_byte : ℕ → ℕ → ℕ → ℕ
or_byte k d w = bit_or w (d << (k * 8))

pub byte_lem : (k w : ℕ) → byte k w ≡ w / 2 ^ (k * 8) % 256
unfolding byte
byte_lem k w = omega (arith, and_low 8 (w >>> (k * 8)))

sum_of_byte : (s w d : ℕ) → d < 256 → w / 2 ^ s % 256 ≡ 0 → bit_or w (d * 2 ^ s) ≡ w + d * 2 ^ s
sum_of_byte s w d h z =
    let split : w ≡ w % 2 ^ s + w / 2 ^ s / 2 ^ 8 * 2 ^ 8 * 2 ^ s =
      omega (arith, ap (λ (t : ℕ). t * 2 ^ s) (whole (w / 2 ^ s) z)) in
    ap (λ t. bit_or t (d * 2 ^ s)) split
    ∙ fill_field s 8 (w % 2 ^ s) (w / 2 ^ s / 2 ^ 8) d (omega (arith, one-le-pow s 2)) (omega arith)
    ∙ omega (arith, split)
  where
    whole : (t : ℕ) → t % 256 ≡ 0 → t ≡ t / 2 ^ 8 * 2 ^ 8
    whole t e = omega arith

-- Or-ing a byte into a place that is zero adds it there.
pub or_byte-sum :
    (k w d : ℕ) → k < 4 → w < 2 ^ 32 → d < 256 → byte k w ≡ 0 → or_byte k d w ≡ w + d * 2 ^ (k * 8)
unfolding or_byte
or_byte-sum (suc (suc (suc (suc k)))) w d p q h z = absurd (omega arith)
or_byte-sum k w d p q h z =
    ap (bit_or w) {x = d << (k * 8)} (omega arith)
    ∙ sum_of_byte (k * 8) w d h (omega (arith, byte_lem k w))

-- It makes that byte the new one and changes no other, and the word stays in range.
pub byte-or_byte :
    (j k w d : ℕ)
    → j < 4
    → k < 4
    → w < 2 ^ 32
    → d < 256
    → byte k w ≡ 0
    → (or_byte k d w < 2 ^ 32)
      × (j ≡ k → byte j (or_byte k d w) ≡ d)
      × (j ≢ k → byte j (or_byte k d w) ≡ byte j w)
byte-or_byte (suc (suc (suc (suc j)))) k w d pj p q h z = absurd (omega arith)
byte-or_byte zero (suc (suc (suc (suc k)))) w d pj p q h z = absurd (omega arith)
byte-or_byte (suc zero) (suc (suc (suc (suc k)))) w d pj p q h z = absurd (omega arith)
byte-or_byte (suc (suc zero)) (suc (suc (suc (suc k)))) w d pj p q h z = absurd (omega arith)
byte-or_byte (suc (suc (suc zero))) (suc (suc (suc (suc k)))) w d pj p q h z = absurd (omega arith)
byte-or_byte j k w d pj p q h z =
    omega (arith, byte_lem j (or_byte k d w), byte_lem j w, byte_lem k w, or_byte-sum k w d p q h z)

pub byte-zero : (k : ℕ) → byte k 0 ≡ 0
byte-zero k = byte_lem k 0 ∙ ap (λ t. t % 256) (zero-div (2 ^ (k * 8)))
