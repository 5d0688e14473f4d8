-- ===== src/Prelude/Ascii.antt =====
-- The methods of `str` that the sources use, on ASCII text.
use Prim.Native.Nat.{ℕ, ◌+◌, ◌-◌, ◌*◌}
use mathlib.Core.Path.{◌≡◌, refl, ap, ap₂}
use mathlib.Core.Logic.{inl, inr}
use native.Mathlib.Omega.{arith}
use mathlib.Core.Bool.{Bool, false, not, ◌&&◌, ◌||◌}
use mathlib.Core.List.{List, [], ◌∷◌, ◌++◌, reverse}
use mathlib.Core.Option.{Option, none, some}
use csd_mining_pool_public.Prelude.Tests.{Text, text_eq, ltb, leb, ◌==◌, if◌then◌else◌, Bool-cases}
use csd_mining_pool_public.Prelude.Lists.{length, drop}

-- The ASCII characters of `char::is_whitespace`.
unfoldable pub is_whitespace : ℕ → Bool
is_whitespace c = leb 9 c && leb c 13 || c == 32

unfoldable pub trim_start : Text → Text
unfolding is_whitespace
trim_start [] = []
trim_start (c ∷ s) = if is_whitespace c then trim_start s else c ∷ s

unfoldable pub trim : Text → Text
unfolding trim_start
trim s = reverse (trim_start (reverse (trim_start s)))

-- `c.to_ascii_lowercase()`.
unfoldable pub lower : ℕ → ℕ
lower c = if leb b'A' c && leb c b'Z' then c + 32 else c

unfoldable pub to_lowercase : Text → Text
unfolding lower
to_lowercase [] = []
to_lowercase (c ∷ s) = lower c ∷ to_lowercase s

-- `strip_prefix`.
unfoldable pub strip_prefix : Text → Text → Option Text
strip_prefix [] s = some s
strip_prefix (p ∷ ps) [] = none
strip_prefix (p ∷ ps) (c ∷ s) = if p == c then strip_prefix ps s else none

-- The text up to the first character that a test accepts, and the text from there on.
unfoldable pub until : (ℕ → Bool) → Text → Text
until stops [] = []
until stops (c ∷ s) = if stops c then [] else c ∷ until stops s

unfoldable pub from_first : (ℕ → Bool) → Text → Text
from_first stops [] = []
from_first stops (c ∷ s) = if stops c then c ∷ s else from_first stops s

-- `split`: the first piece and the others.
unfoldable pub split_at : (ℕ → Bool) → Text → Text × List Text
split_at stops [] = ([], [])
split_at stops (c ∷ s) =
    let (piece, pieces) = split_at stops s in
    if stops c then ([], piece ∷ pieces) else (c ∷ piece, pieces)

unfoldable pub split : (ℕ → Bool) → Text → List Text
unfolding split_at
split stops s = let (piece, pieces) = split_at stops s in piece ∷ pieces

unfoldable pub ends_with : Text → Text → Bool
ends_with suffix s =
    leb (length suffix) (length s) && text_eq (drop (length s - length suffix) s) suffix

unfoldable pub contains_char : ℕ → Text → Bool
contains_char c [] = false
contains_char c (d ∷ s) = d == c || contains_char c s

unfoldable pub is_ascii_digit : ℕ → Bool
is_ascii_digit c = leb b'0' c && leb c b'9'

-- The digits of base 10 from the value so far; `none` also if the value reaches `bound`.
unfoldable pub digits_value : ℕ → Text → ℕ → Option ℕ
unfolding is_ascii_digit
digits_value bound [] acc = some acc
digits_value bound (c ∷ s) acc =
    let next = acc * 10 + (c - b'0') in
    let rest = digits_value bound s next in
    if not (is_ascii_digit c) then none else if ltb next bound then rest else none

-- `parse` of an unsigned integer below `bound`: an optional `+`, then at least one digit.
unfoldable pub parse_unsigned : ℕ → Text → Option ℕ
unfolding digits_value
parse_unsigned bound [] = none
parse_unsigned bound (c ∷ []) = digits_value bound (c ∷ []) 0
parse_unsigned bound (c ∷ d ∷ s) =
    if c == b'+' then digits_value bound (d ∷ s) 0 else digits_value bound (c ∷ d ∷ s) 0

-- What the pieces of a split make together.
pub until-from_first : (stops : ℕ → Bool) (s : Text) → until stops s ++ from_first stops s ≡ s
unfolding until from_first
until-from_first stops [] = refl
until-from_first stops (c ∷ s) = elim (Bool-cases (stops c)) [
  | inl stop ↦ rw stop refl
  | inr go ↦ rw go (ap (◌∷◌ c) (until-from_first stops s))
]

-- The first piece of a split.
pub split_at_first : (stops : ℕ → Bool) (s : Text) → (split_at stops s).0 ≡ until stops s
unfolding split_at until
split_at_first stops [] = refl
split_at_first stops (c ∷ s) = elim (Bool-cases (stops c)) [
  | inl stop ↦ rw stop refl
  | inr go ↦ rw go (ap (◌∷◌ c) (split_at_first stops s))
]

pub strip_prefix-some : (p s t : Text) → strip_prefix p s ≡ some t → s ≡ p ++ t
unfolding strip_prefix
strip_prefix-some [] s t h = cc
strip_prefix-some (p ∷ ps) [] t h = absurd cc
strip_prefix-some (p ∷ ps) (c ∷ s) t h = elim (Bool-cases (p == c)) [
  | inl same ↦ ap₂ ◌∷◌ (ground arith) (strip_prefix-some ps s t (ground arith))
  | inr differ ↦ absurd (ground arith)
]
