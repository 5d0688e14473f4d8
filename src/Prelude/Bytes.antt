-- ===== src/Prelude/Bytes.antt =====
-- Numbers as bytes, both ends first, and what the bytes stand for.
use Prim.Native.Nat.{ℕ, zero, suc, ◌+◌, ◌*◌, ◌/◌, ◌%◌, ◌^◌, ◌<◌}
use mathlib.Core.Path.{◌≡◌, refl, ap, ap₂, ◌∙◌}
use mathlib.Core.List.{List, [], ◌∷◌, ◌++◌, reverse}
use native.Mathlib.Nat.{pow-suc, zero-add, suc-add}
use native.Mathlib.Omega.{arith}
use csd_mining_pool_public.Prelude.Lists.{All, length, length-reverse}

abbrev pub IsByte : ℕ → Type 0
IsByte b = b < 256

abbrev pub IsBytes : List ℕ → Type 0
IsBytes = All IsByte

-- `x.to_le_bytes()` of a `k`-byte integer.
unfoldable pub to_le_bytes : ℕ → ℕ → List ℕ
to_le_bytes zero x = []
to_le_bytes (suc k) x = x % 256 ∷ to_le_bytes k (x / 256)

-- `from_le_bytes`.
unfoldable pub from_le_bytes : List ℕ → ℕ
from_le_bytes [] = 0
from_le_bytes (b ∷ bs) = b + 256 * from_le_bytes bs

-- `x.to_be_bytes()` of a `k`-byte integer.
unfoldable pub to_be_bytes : ℕ → ℕ → List ℕ
to_be_bytes k x = reverse (to_le_bytes k x)

-- `from_be_bytes`: the first byte is the most significant.
unfoldable pub from_be_bytes : List ℕ → ℕ
from_be_bytes [] = 0
from_be_bytes (b ∷ bs) = b * 256 ^ length bs + from_be_bytes bs

pub length-to_le_bytes : (k x : ℕ) → length (to_le_bytes k x) ≡ k
unfolding to_le_bytes
length-to_le_bytes zero x = refl
length-to_le_bytes (suc k) x = ap suc (length-to_le_bytes k (x / 256))

pub length-to_be_bytes : (k x : ℕ) → length (to_be_bytes k x) ≡ k
unfolding to_be_bytes
length-to_be_bytes k x = length-reverse (to_le_bytes k x) ∙ length-to_le_bytes k x

pub to_le_bytes-IsBytes : (k x : ℕ) → IsBytes (to_le_bytes k x)
unfolding to_le_bytes
to_le_bytes-IsBytes zero x = tt
to_le_bytes-IsBytes (suc k) x = (omega arith, to_le_bytes-IsBytes k (x / 256))

-- Bytes and integers of one width are in bijection.
pub from_le_bytes-to_le_bytes : (k x : ℕ) → x < 256 ^ k → from_le_bytes (to_le_bytes k x) ≡ x
unfolding to_le_bytes from_le_bytes
from_le_bytes-to_le_bytes zero x h = omega arith
from_le_bytes-to_le_bytes (suc k) x h =
    omega (arith, from_le_bytes-to_le_bytes k (x / 256) (omega (arith, pow-suc 256 k)))

pub to_le_bytes-from_le_bytes :
    (bs : List ℕ) → IsBytes bs → to_le_bytes (length bs) (from_le_bytes bs) ≡ bs
unfolding to_le_bytes from_le_bytes
to_le_bytes-from_le_bytes [] h = refl
to_le_bytes-from_le_bytes (b ∷ bs) h =
    let rest : (b + 256 * from_le_bytes bs) / 256 ≡ from_le_bytes bs = omega (arith, h.0) in
    ap₂ ◌∷◌ (omega (arith, h.0))
      (ap (to_le_bytes (length bs)) rest ∙ to_le_bytes-from_le_bytes bs h.1)

pub from_le_bytes-lt : (bs : List ℕ) → IsBytes bs → from_le_bytes bs < 256 ^ length bs
unfolding from_le_bytes
from_le_bytes-lt [] h = omega arith
from_le_bytes-lt (b ∷ bs) h = omega (arith, h.0, from_le_bytes-lt bs h.1, pow-suc 256 (length bs))

pub from_be_bytes-lt : (bs : List ℕ) → IsBytes bs → from_be_bytes bs < 256 ^ length bs
unfolding from_be_bytes
from_be_bytes-lt [] h = omega arith
from_be_bytes-lt (b ∷ bs) h = grind (arith, h.0, from_be_bytes-lt bs h.1, pow-suc 256 (length bs))

-- A wide integer is its low bytes and then its high ones.
pub to_le_bytes-append :
    (j k x y : ℕ)
    → x < 256 ^ j
    → to_le_bytes (j + k) (x + y * 256 ^ j) ≡ to_le_bytes j x ++ to_le_bytes k y
unfolding to_le_bytes
to_le_bytes-append zero k x y h = let e : x + y * 256 ^ 0 ≡ y = omega arith in rw (zero-add, e)
to_le_bytes-append (suc j) k x y h =
    let shift : y * 256 ^ suc j ≡ 256 * (y * 256 ^ j) =
      omega (arith, ap (λ (t : ℕ). y * t) (pow-suc 256 j)) in
    let low : (x + y * 256 ^ suc j) % 256 ≡ x % 256 = omega (arith, shift) in
    let high : (x + y * 256 ^ suc j) / 256 ≡ x / 256 + y * 256 ^ j = omega (arith, shift) in
    rw suc-add (
      ap₂ ◌∷◌ low (
        ap (to_le_bytes (j + k)) high
        ∙ to_le_bytes-append j k (x / 256) y (omega (arith, pow-suc 256 j))))
