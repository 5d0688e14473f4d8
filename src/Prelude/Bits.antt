-- ===== src/Prelude/Bits.antt =====
-- `|`, `&` and `^` on numbers: one equation for the lowest binary digit, and `|` of two fields
-- that do not overlap.
use Prim.Native.Nat.{
  ℕ, zero, suc, ◌+◌, ◌*◌, ◌/◌, ◌%◌, ◌^◌, ◌≤◌, ◌<◌, max, digits, bit_or, bit_or-bitwise,
}
use mathlib.Core.Path.{◌≡◌, refl, ap}
use native.Mathlib.Nat.{pow-suc}
use native.Mathlib.Omega.{arith}

abbrev or_digits : ℕ → ℕ → ℕ → ℕ
or_digits n a b = digits (λ y. y) max n a b

-- Any fuel from the first operand on gives the same digits.
or_digits_enough : (m n a b : ℕ) → a ≤ m → a ≤ n → or_digits m a b ≡ or_digits n a b
or_digits_enough zero zero a b p q = refl
or_digits_enough zero (suc n) zero b p q = refl
or_digits_enough zero (suc n) (suc a) b p q = absurd (omega arith)
or_digits_enough (suc m) zero zero b p q = refl
or_digits_enough (suc m) zero (suc a) b p q = absurd (omega arith)
or_digits_enough (suc m) (suc n) zero b p q = refl
or_digits_enough (suc m) (suc n) (suc a) b p q =
    omega (arith, or_digits_enough m n (suc a / 2) (b / 2) (omega arith) (omega arith))

zero-bit_or : (b : ℕ) → bit_or 0 b ≡ b
zero-bit_or b = bit_or-bitwise 0 b

pub bit_or_step : (a b : ℕ) → bit_or a b ≡ bit_or (a / 2) (b / 2) * 2 + max (a % 2) (b % 2)
bit_or_step zero b = omega (arith, zero-bit_or b, zero-bit_or (b / 2))
bit_or_step (suc a) b = omega (
  arith,
  bit_or-bitwise (suc a) b,
  bit_or-bitwise (suc a / 2) (b / 2),
  or_digits_enough a (suc a / 2) (suc a / 2) (b / 2) (omega arith) (omega arith),
)

bit_or-zero_below : (n a : ℕ) → a ≤ n → bit_or a 0 ≡ a
bit_or-zero_below n zero h = zero-bit_or 0
bit_or-zero_below zero (suc a) h = absurd (omega arith)
bit_or-zero_below (suc n) (suc a) h =
    omega (arith, bit_or_step (suc a) 0, bit_or-zero_below n (suc a / 2) (omega arith))

pub bit_or-zero : (a : ℕ) → bit_or a 0 ≡ a
bit_or-zero a = bit_or-zero_below a a (omega arith)

shift_suc : (q k : ℕ) → q * 2 ^ suc k ≡ 2 * (q * 2 ^ k)
shift_suc q k = omega (arith, ap (λ (t : ℕ). q * t) (pow-suc 2 k))

-- `lo | (hi << k)`, where `lo` fits in `k` bits.
pub bit_or_low_high : (k lo hi : ℕ) → lo < 2 ^ k → bit_or lo (hi * 2 ^ k) ≡ lo + hi * 2 ^ k
bit_or_low_high zero zero hi h = omega (arith, zero-bit_or (hi * 1))
bit_or_low_high zero (suc lo) hi h = absurd (omega arith)
bit_or_low_high (suc k) lo hi h = omega (
  arith,
  shift_suc hi k,
  pow-suc 2 k,
  ap (λ (t : ℕ). bit_or lo t) (shift_suc hi k),
  bit_or_step lo (2 * (hi * 2 ^ k)),
  ap (λ (t : ℕ). bit_or (lo / 2) t) (halve (hi * 2 ^ k)),
  bit_or_low_high k (lo / 2) hi (omega (arith, pow-suc 2 k)),
)
  where
    halve : (t : ℕ) → 2 * t / 2 ≡ t
    halve t = omega arith

-- `(hi << k) | lo`.
pub bit_or_high_low : (k hi lo : ℕ) → lo < 2 ^ k → bit_or (hi * 2 ^ k) lo ≡ hi * 2 ^ k + lo
bit_or_high_low zero hi zero h = omega (arith, bit_or-zero (hi * 1))
bit_or_high_low zero hi (suc lo) h = absurd (omega arith)
bit_or_high_low (suc k) hi lo h = omega (
  arith,
  shift_suc hi k,
  pow-suc 2 k,
  ap (λ (t : ℕ). bit_or t lo) (shift_suc hi k),
  bit_or_step (2 * (hi * 2 ^ k)) lo,
  ap (λ (t : ℕ). bit_or t (lo / 2)) (halve (hi * 2 ^ k)),
  bit_or_high_low k hi (lo / 2) (omega (arith, pow-suc 2 k)),
)
  where
    halve : (t : ℕ) → 2 * t / 2 ≡ t
    halve t = omega arith
