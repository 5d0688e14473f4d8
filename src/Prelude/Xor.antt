-- ===== src/Prelude/Xor.antt =====
-- `^` on numbers: one equation for the lowest binary digit, and when it is 0.
use Prim.Native.Nat.{
  ℕ, zero, suc, ◌+◌, ◌*◌, ◌/◌, ◌%◌, ◌≤◌, digits, differ, bit_xor, bit_xor-bitwise, bit_or,
}
use mathlib.Core.Path.{◌≡◌, refl}
use native.Mathlib.Omega.{arith}
use csd_mining_pool_public.Prelude.Bits.{bit_or_step}

abbrev xor_digits : ℕ → ℕ → ℕ → ℕ
xor_digits n a b = digits (λ y. y) differ n a b

xor_digits_enough : (m n a b : ℕ) → a ≤ m → a ≤ n → xor_digits m a b ≡ xor_digits n a b
xor_digits_enough zero zero a b p q = refl
xor_digits_enough zero (suc n) zero b p q = refl
xor_digits_enough zero (suc n) (suc a) b p q = absurd (omega arith)
xor_digits_enough (suc m) zero zero b p q = refl
xor_digits_enough (suc m) zero (suc a) b p q = absurd (omega arith)
xor_digits_enough (suc m) (suc n) zero b p q = refl
xor_digits_enough (suc m) (suc n) (suc a) b p q =
    omega (arith, xor_digits_enough m n (suc a / 2) (b / 2) (omega arith) (omega arith))

zero-bit_xor : (b : ℕ) → bit_xor 0 b ≡ b
zero-bit_xor b = bit_xor-bitwise 0 b

bit_xor_step : (a b : ℕ) → bit_xor a b ≡ bit_xor (a / 2) (b / 2) * 2 + differ (a % 2) (b % 2)
bit_xor_step zero b = omega (arith, zero-bit_xor b, zero-bit_xor (b / 2), differ_zero (b % 2))
  where
    differ_zero : (y : ℕ) → differ 0 y ≡ y
    differ_zero y = refl
bit_xor_step (suc a) b = omega (
  arith,
  bit_xor-bitwise (suc a) b,
  bit_xor-bitwise (suc a / 2) (b / 2),
  xor_digits_enough a (suc a / 2) (suc a / 2) (b / 2) (omega arith) (omega arith),
)

differ_eq : (x y : ℕ) → differ x y ≡ 0 → x ≡ y
differ_eq zero zero h = refl
differ_eq zero (suc y) h = omega arith
differ_eq (suc x) zero h = omega arith
differ_eq (suc x) (suc y) h = omega (arith, differ_eq x y h)

differ_self : (x : ℕ) → differ x x ≡ 0
differ_self zero = refl
differ_self (suc x) = differ_self x

bit_xor_eq_below : (n a b : ℕ) → a ≤ n → bit_xor a b ≡ 0 → a ≡ b
bit_xor_eq_below n zero b p h = omega (arith, zero-bit_xor b)
bit_xor_eq_below zero (suc a) b p h = absurd (omega arith)
bit_xor_eq_below (suc n) (suc a) b p h =
    let step = bit_xor_step (suc a) b in
    let low = differ_eq (suc a % 2) (b % 2) (omega arith) in
    let high = bit_xor_eq_below n (suc a / 2) (b / 2) (omega arith) (omega arith) in omega arith

-- The exclusive or of two numbers is 0 only if they are the same.
pub bit_xor_eq : (a b : ℕ) → bit_xor a b ≡ 0 → a ≡ b
bit_xor_eq a b h = bit_xor_eq_below a a b (omega arith) h

bit_xor_self_below : (n a : ℕ) → a ≤ n → bit_xor a a ≡ 0
bit_xor_self_below n zero p = zero-bit_xor 0
bit_xor_self_below zero (suc a) p = absurd (omega arith)
bit_xor_self_below (suc n) (suc a) p = omega (
  arith,
  bit_xor_step (suc a) (suc a),
  differ_self (suc a % 2),
  bit_xor_self_below n (suc a / 2) (omega arith),
)

pub bit_xor_self : (a : ℕ) → bit_xor a a ≡ 0
bit_xor_self a = bit_xor_self_below a a (omega arith)

bit_or_ge_below : (n a b : ℕ) → a + b ≤ n → (a ≤ bit_or a b) × (b ≤ bit_or a b)
bit_or_ge_below zero zero zero p = (omega arith, omega arith)
bit_or_ge_below zero zero (suc b) p = absurd (omega arith)
bit_or_ge_below zero (suc a) b p = absurd (omega arith)
bit_or_ge_below (suc n) zero zero p = (omega arith, omega arith)
bit_or_ge_below (suc n) zero (suc b) p =
    let (l, r) = bit_or_ge_below n 0 (suc b / 2) (omega arith) in
    omega (arith, bit_or_step 0 (suc b))
bit_or_ge_below (suc n) (suc a) b p =
    let (l, r) = bit_or_ge_below n (suc a / 2) (b / 2) (omega arith) in
    omega (arith, bit_or_step (suc a) b)

-- `|` keeps what is not 0.
pub bit_or_ge : (a b : ℕ) → (a ≤ bit_or a b) × (b ≤ bit_or a b)
bit_or_ge a b = bit_or_ge_below (a + b) a b (omega arith)
