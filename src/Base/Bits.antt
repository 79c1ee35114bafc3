-- ===== src/Base/Bits.antt =====
-- `&` and `|` at variables, as arithmetic: fields that do not overlap add up, a low mask is a
-- remainder, and a shifted mask is a shifted test.
use Prim.Native.Nat.{
  ℕ, zero, suc, ◌+◌, ◌-◌, ◌*◌, ◌/◌, ◌%◌, ◌^◌, ◌≤◌, ◌<◌, min, max, digits, bit_and, bit_or,
  bit_and-bitwise, bit_or-bitwise,
}
use mathlib.Core.Path.{◌≡◌, refl, ap, ap₂, ◌∙◌}
use native.Mathlib.Nat.{pow-suc, one-le-pow, mod-mod, mul_comm, div-div-eq-div-mul}
use native.Mathlib.Omega.{arith}

-- The recursion behind the native operations does not depend on its fuel.
enough_fuel :
    (rest : ℕ → ℕ) (f : ℕ → ℕ → ℕ) (n m a b : ℕ)
    → a ≤ n
    → a ≤ m
    → digits rest f n a b ≡ digits rest f m a b
enough_fuel rest f zero zero a b p q = refl
enough_fuel rest f zero (suc m) zero b p q = refl
enough_fuel rest f zero (suc m) (suc a) b p q = absurd (omega arith)
enough_fuel rest f (suc n) zero zero b p q = refl
enough_fuel rest f (suc n) zero (suc a) b p q = absurd (omega arith)
enough_fuel rest f (suc n) (suc m) zero b p q = refl
enough_fuel rest f (suc n) (suc m) (suc a) b p q =
    ap (λ t. t * 2 + f (suc a % 2) (b % 2))
      (enough_fuel rest f n m (suc a / 2) (b / 2) (omega arith) (omega arith))

zero-or : (b : ℕ) → bit_or 0 b ≡ b
zero-or b = bit_or-bitwise 0 b

zero-and : (b : ℕ) → bit_and 0 b ≡ 0
zero-and b = bit_and-bitwise 0 b

pub or_halves : (a b : ℕ) → bit_or a b ≡ bit_or (a / 2) (b / 2) * 2 + max (a % 2) (b % 2)
or_halves zero b = omega (arith, zero-or b, zero-or (b / 2))
or_halves (suc a) b = omega (
  arith,
  bit_or-bitwise (suc a) b,
  bit_or-bitwise (suc a / 2) (b / 2),
  enough_fuel (λ x. x) max a (suc a / 2) (suc a / 2) (b / 2) (omega arith) (omega arith),
)

and_halves : (a b : ℕ) → bit_and a b ≡ bit_and (a / 2) (b / 2) * 2 + min (a % 2) (b % 2)
and_halves zero b = omega (arith, zero-and b, zero-and (b / 2))
and_halves (suc a) b = omega (
  arith,
  bit_and-bitwise (suc a) b,
  bit_and-bitwise (suc a / 2) (b / 2),
  enough_fuel (λ x. 0) min a (suc a / 2) (suc a / 2) (b / 2) (omega arith) (omega arith),
)

and-zero_below : (n a : ℕ) → a ≤ n → bit_and a 0 ≡ 0
and-zero_below n zero h = refl
and-zero_below zero (suc a) h = absurd (omega arith)
and-zero_below (suc n) (suc a) h =
    omega (arith, and_halves (suc a) 0, and-zero_below n (suc a / 2) (omega arith))

pub bit_and-zero : (a : ℕ) → bit_and a 0 ≡ 0
bit_and-zero a = and-zero_below a a (omega arith)

doubled : (q k : ℕ) → q * 2 ^ suc k ≡ 2 * (q * 2 ^ k)
doubled q k = omega (arith, ap (λ (t : ℕ). q * t) (pow-suc 2 k))

half_double : (t : ℕ) → 2 * t / 2 ≡ t
half_double t = omega arith

times_one : (t : ℕ) → t * 2 ^ 0 ≡ t
times_one t = omega arith

over_one : (t : ℕ) → t / 2 ^ 0 ≡ t
over_one t = omega arith

-- `lo | hi << k` is a sum when `lo` fits `k` bits.
pub or_fields : (k lo hi : ℕ) → lo < 2 ^ k → bit_or lo (hi * 2 ^ k) ≡ lo + hi * 2 ^ k
or_fields zero zero hi h = zero-or (hi * 2 ^ 0) ∙ omega arith
or_fields zero (suc lo) hi h = absurd (omega arith)
or_fields (suc k) lo hi h = omega (
  arith,
  or_halves lo (hi * 2 ^ suc k),
  doubled hi k,
  pow-suc 2 k,
  or_fields k (lo / 2) hi (omega (arith, pow-suc 2 k)),
  ap (λ (t : ℕ). bit_or (lo / 2) (t / 2)) (doubled hi k),
  ap (λ (t : ℕ). bit_or (lo / 2) t) (half_double (hi * 2 ^ k)),
)

low_fields : (k q r : ℕ) → r < 2 ^ k → bit_and (q * 2 ^ k + r) (2 ^ k - 1) ≡ r
low_fields zero q r h = bit_and-zero (q * 2 ^ 0 + r) ∙ omega arith
low_fields (suc k) q r h = ground (
  arith,
  and_halves (q * 2 ^ suc k + r) (2 ^ suc k - 1),
  doubled q k,
  pow-suc 2 k,
  one-le-pow k 2,
  low_fields k q (r / 2),
)

-- `a & (2 ^ k - 1)` is the remainder by `2 ^ k`.
pub and_low : (k a : ℕ) → bit_and a (2 ^ k - 1) ≡ a % 2 ^ k
and_low k a = ground (arith, one-le-pow k 2, low_fields k (a / 2 ^ k) (a % 2 ^ k))

-- `a & (c << k)` reads the bits of `a` from `k` on.
pub and_high : (k a c : ℕ) → bit_and a (c * 2 ^ k) ≡ bit_and (a / 2 ^ k) c * 2 ^ k
and_high zero a c =
    omega
      (arith, ap (λ (t : ℕ). bit_and a t) (times_one c), ap (λ (t : ℕ). bit_and t c) (over_one a))
and_high (suc k) a c = omega (
  arith,
  and_halves a (c * 2 ^ suc k),
  doubled c k,
  ap (λ (t : ℕ). bit_and (a / 2) (t / 2)) (doubled c k),
  ap (λ (t : ℕ). bit_and (a / 2) t) (half_double (c * 2 ^ k)),
  and_high k (a / 2) c,
  doubled (bit_and (a / 2 ^ suc k) c) k,
  ap (λ (t : ℕ). bit_and t c * 2 ^ k) (div-div-eq-div-mul a 2 (2 ^ k)),
  ap (λ (t : ℕ). bit_and (a / t) c * 2 ^ k) (pow-suc 2 k ∙ mul_comm (2 ^ k) 2),
)

halved : (a b k : ℕ) → (a + b * 2 ^ suc k) / 2 ≡ a / 2 + b * 2 ^ k
halved a b k = omega (arith, doubled b k)

plain : (b : ℕ) → 0 + b * 2 ^ 0 ≡ b
plain b = omega arith

-- Both operations work on the low `k` bits and on the rest apart.
pub or_split :
    (k a b c d : ℕ)
    → a < 2 ^ k
    → c < 2 ^ k
    → bit_or (a + b * 2 ^ k) (c + d * 2 ^ k) ≡ bit_or a c + bit_or b d * 2 ^ k
or_split zero zero b zero d p q = omega (
  arith,
  zero-or 0,
  ap (λ (t : ℕ). bit_or t (0 + d * 2 ^ 0)) (plain b),
  ap (λ (t : ℕ). bit_or b t) (plain d),
)
or_split zero (suc a) b c d p q = absurd (omega arith)
or_split zero zero b (suc c) d p q = absurd (omega arith)
or_split (suc k) a b c d p q = omega (
  arith,
  or_halves (a + b * 2 ^ suc k) (c + d * 2 ^ suc k),
  or_halves a c,
  doubled b k,
  doubled d k,
  doubled (bit_or b d) k,
  pow-suc 2 k,
  or_split k (a / 2) b (c / 2) d (omega (arith, pow-suc 2 k)) (omega (arith, pow-suc 2 k)),
  ap (λ (t : ℕ). bit_or t ((c + d * 2 ^ suc k) / 2)) (halved a b k),
  ap (λ (t : ℕ). bit_or (a / 2 + b * 2 ^ k) t) (halved c d k),
)

pub and_split :
    (k a b c d : ℕ)
    → a < 2 ^ k
    → c < 2 ^ k
    → bit_and (a + b * 2 ^ k) (c + d * 2 ^ k) ≡ bit_and a c + bit_and b d * 2 ^ k
and_split zero zero b zero d p q = omega (
  arith,
  zero-and 0,
  ap (λ (t : ℕ). bit_and t (0 + d * 2 ^ 0)) (plain b),
  ap (λ (t : ℕ). bit_and b t) (plain d),
)
and_split zero (suc a) b c d p q = absurd (omega arith)
and_split zero zero b (suc c) d p q = absurd (omega arith)
and_split (suc k) a b c d p q = omega (
  arith,
  and_halves (a + b * 2 ^ suc k) (c + d * 2 ^ suc k),
  and_halves a c,
  doubled b k,
  doubled d k,
  doubled (bit_and b d) k,
  pow-suc 2 k,
  and_split k (a / 2) b (c / 2) d (omega (arith, pow-suc 2 k)) (omega (arith, pow-suc 2 k)),
  ap (λ (t : ℕ). bit_and t ((c + d * 2 ^ suc k) / 2)) (halved a b k),
  ap (λ (t : ℕ). bit_and (a / 2 + b * 2 ^ k) t) (halved c d k),
)

or-zero_below : (n a : ℕ) → a ≤ n → bit_or a 0 ≡ a
or-zero_below n zero h = zero-or 0
or-zero_below zero (suc a) h = absurd (omega arith)
or-zero_below (suc n) (suc a) h =
    omega (arith, or_halves (suc a) 0, or-zero_below n (suc a / 2) (omega arith))

pub bit_or-zero : (a : ℕ) → bit_or a 0 ≡ a
bit_or-zero a = or-zero_below a a (omega arith)

parts : (k v : ℕ) → v ≡ v % 2 ^ k + v / 2 ^ k * 2 ^ k
parts k v = omega arith

-- Clearing the `w` bits from bit `k` on, in a word of `k + w + r` bits.
pub clear_field :
    (k w r v : ℕ)
    → bit_and v (2 ^ k - 1 + (2 ^ r - 1) * 2 ^ w * 2 ^ k)
      ≡ v % 2 ^ k + v / 2 ^ k / 2 ^ w % 2 ^ r * 2 ^ w * 2 ^ k
clear_field k w r v =
    ap (λ t. bit_and t (2 ^ k - 1 + (2 ^ r - 1) * 2 ^ w * 2 ^ k)) (parts k v)
    ∙ and_split k (v % 2 ^ k) (v / 2 ^ k) (2 ^ k - 1) ((2 ^ r - 1) * 2 ^ w)
        (omega (arith, one-le-pow k 2)) (omega (arith, one-le-pow k 2))
    ∙ rw (and_low, and_high, and_low, mod-mod)

from_zero : (t : ℕ) → t ≡ 0 + t
from_zero t = omega arith

times_zero : (k x : ℕ) → x ≡ x + 0 * 2 ^ k
times_zero k x = omega arith

-- The low `k` bits stay where only bits above them are set.
pub or_above : (k v c : ℕ) → bit_or v (c * 2 ^ k) ≡ v % 2 ^ k + bit_or (v / 2 ^ k) c * 2 ^ k
or_above k v c =
    ap₂ bit_or (parts k v) (from_zero (c * 2 ^ k))
    ∙ or_split k (v % 2 ^ k) (v / 2 ^ k) 0 c (omega (arith, one-le-pow k 2))
        (omega (arith, one-le-pow k 2))
    ∙ rw bit_or-zero refl

-- `hi << k | lo` is a sum when `lo` fits `k` bits.
pub fields_or : (k hi lo : ℕ) → lo < 2 ^ k → bit_or (hi * 2 ^ k) lo ≡ lo + hi * 2 ^ k
fields_or k hi lo h =
    ap₂ bit_or (from_zero (hi * 2 ^ k)) (times_zero k lo)
    ∙ or_split k 0 hi lo 0 (omega (arith, one-le-pow k 2)) h
    ∙ rw (zero-or, bit_or-zero)

-- Filling a field that has been cleared.
pub fill_field :
    (k w lo hi x : ℕ)
    → lo < 2 ^ k
    → x < 2 ^ w
    → bit_or (lo + hi * 2 ^ w * 2 ^ k) (x * 2 ^ k) ≡ lo + (x + hi * 2 ^ w) * 2 ^ k
fill_field k w lo hi x p q =
    ap (λ t. bit_or (lo + hi * 2 ^ w * 2 ^ k) t) (from_zero (x * 2 ^ k))
    ∙ or_split k lo (hi * 2 ^ w) 0 x p (omega (arith, one-le-pow k 2))
    ∙ rw (bit_or-zero, fields_or w hi x q)
