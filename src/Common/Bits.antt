-- ===== src/Common/Bits.antt =====
-- `(hi << k) | lo` of disjoint fields is a sum.
use Prim.Native.Nat.{
  ℕ, zero, suc, ◌+◌, ◌*◌, ◌/◌, ◌%◌, ◌^◌, ◌≤◌, ◌<◌, max, bit_or, digits, bit_or-bitwise,
}
use mathlib.Core.Path.{◌≡◌, refl, ap}
use native.Mathlib.Omega.{arith}
use native.Mathlib.Nat.{pow-suc}

-- The digit recursion that `bit_or` stands for, with its count of digits free.
abbrev or_digits : ℕ → ℕ → ℕ → ℕ
or_digits n a b = digits (λ b. b) max n a b

-- Any count that reaches the first number's digits gives the same result.
or_digits_count : (n m a b : ℕ) → a ≤ n → a ≤ m → or_digits n a b ≡ or_digits m a b
or_digits_count zero zero a b p q = refl
or_digits_count zero (suc m) zero b p q = refl
or_digits_count (suc n) zero zero b p q = refl
or_digits_count (suc n) (suc m) zero b p q = refl
or_digits_count zero (suc m) (suc a) b p q = absurd (omega arith)
or_digits_count (suc n) zero (suc a) b p q = absurd (omega arith)
or_digits_count (suc n) (suc m) (suc a) b p q =
    omega (arith, or_digits_count n m (suc a / 2) (b / 2) (omega arith) (omega arith))

-- The lowest digit of `|`, and the digits above it.
or_low_digit : (a b : ℕ) → bit_or a b ≡ bit_or (a / 2) (b / 2) * 2 + max (a % 2) (b % 2)
or_low_digit zero b = omega (arith, bit_or-bitwise 0 b, bit_or-bitwise 0 (b / 2))
or_low_digit (suc a) b = omega (
  arith,
  bit_or-bitwise (suc a) b,
  bit_or-bitwise (suc a / 2) (b / 2),
  or_digits_count a (suc a / 2) (suc a / 2) (b / 2) (omega arith) (omega arith),
)

or_zero_count : (n a : ℕ) → a ≤ n → bit_or a 0 ≡ a
or_zero_count n zero h = refl
or_zero_count zero (suc a) h = absurd (omega arith)
or_zero_count (suc n) (suc a) h =
    omega (arith, or_low_digit (suc a) 0, or_zero_count n (suc a / 2) (omega arith))

-- A field shifted by `k` bits, joined with one that fits into `k` bits.
pub bit_or-shift : (k hi lo : ℕ) → lo < 2 ^ k → bit_or (hi * 2 ^ k) lo ≡ hi * 2 ^ k + lo
bit_or-shift zero hi lo h = ground (arith, or_zero_count hi hi)
bit_or-shift (suc k) hi lo h = ground (
  arith,
  or_low_digit (hi * 2 ^ suc k) lo,
  ap (λ (t : ℕ). hi * t) (pow-suc 2 k),
  bit_or-shift k hi (lo / 2) (omega arith),
)

zero_or : (n a : ℕ) → a ≤ n → bit_or 0 a ≡ a
zero_or n zero h = refl
zero_or zero (suc a) h = absurd (omega arith)
zero_or (suc n) (suc a) h =
    omega (arith, or_low_digit 0 (suc a), zero_or n (suc a / 2) (omega arith))

-- The same with the fields the other way around.
pub shift-bit_or : (k lo hi : ℕ) → lo < 2 ^ k → bit_or lo (hi * 2 ^ k) ≡ hi * 2 ^ k + lo
shift-bit_or zero lo hi h = ground (arith, zero_or hi hi)
shift-bit_or (suc k) lo hi h = ground (
  arith,
  or_low_digit lo (hi * 2 ^ suc k),
  ap (λ (t : ℕ). hi * t) (pow-suc 2 k),
  shift-bit_or k (lo / 2) hi (omega arith),
)
