-- ===== src/Base/Word.antt =====
-- Machine words: a value is a number below 2 ^ w, and each operation writes out its wrap-around.
use Prim.Native.Nat.{ℕ, ◌+◌, ◌-◌, ◌*◌, ◌/◌, ◌%◌, ◌^◌}

abbrev pub u8 : ℕ → ℕ
u8 x = x % 2 ^ 8

abbrev pub u16 : ℕ → ℕ
u16 x = x % 2 ^ 16

abbrev pub u32 : ℕ → ℕ
u32 x = x % 2 ^ 32

-- `uint32_t` sum, difference and product.
abbrev pub add32 : ℕ → ℕ → ℕ
add32 a b = u32 (a + b)

abbrev pub sub32 : ℕ → ℕ → ℕ
sub32 a b = u32 (a + 2 ^ 32 - b)

abbrev pub mul32 : ℕ → ℕ → ℕ
mul32 a b = u32 (a * b)

-- `x << k` and `x >> k` on `uint32_t`.
infixl 60 ◌<<◌ ◌>>>◌
abbrev pub ◌<<◌ : ℕ → ℕ → ℕ
x << k = u32 (x * 2 ^ k)

abbrev pub ◌>>>◌ : ℕ → ℕ → ℕ
x >>> k = x / 2 ^ k

-- `~m` on `uint32_t`.
abbrev pub not32 : ℕ → ℕ
not32 m = 2 ^ 32 - 1 - m
