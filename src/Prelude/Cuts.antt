-- ===== src/Prelude/Cuts.antt =====
-- Where a text is cut by a test on characters, and what its pieces make together.
use Prim.Native.Nat.{ℕ}
use mathlib.Core.Path.{◌≡◌, refl, sym, ap, ap₂, ◌∙◌, subst}
use mathlib.Core.Logic.{◌≢◌, inl, inr}
use mathlib.Core.Bool.{Bool, true, false}
use mathlib.Core.List.{List, [], ◌∷◌, ◌++◌, append-nil}
use mathlib.Core.Option.{some}
use native.Mathlib.Omega.{arith}
use csd_mining_pool_public.Prelude.Tests.{Text, ◌==◌, Bool-cases}
use csd_mining_pool_public.Prelude.Lists.{All, get_elem?}
use csd_mining_pool_public.Prelude.Ascii.{
  until, from_first, split_at, split, until-from_first, split_at_first,
}

-- Text that stops at a character of a test: empty, or one that starts with such a character.
abbrev pub StopsAt : (ℕ → Bool) → Text → Type 0
StopsAt stops [] = Unit
StopsAt stops (c ∷ s) = stops c ≡ true

pub from_first-StopsAt : (stops : ℕ → Bool) (s : Text) → StopsAt stops (from_first stops s)
unfolding from_first
from_first-StopsAt stops [] = tt
from_first-StopsAt stops (c ∷ s) = elim (Bool-cases (stops c)) [
  | inl stop ↦ rw (stop, from_first) stop
  | inr go ↦ rw (go, from_first) (from_first-StopsAt stops s)
]

pub until-All : (stops : ℕ → Bool) (s : Text) → All (λ c. stops c ≡ false) (until stops s)
unfolding until
until-All stops [] = tt
until-All stops (c ∷ s) = elim (Bool-cases (stops c)) [
  | inl stop ↦ rw (stop, until) tt
  | inr go ↦ rw (go, until) (go, until-All stops s)
]

-- The text before a cut.
pub until-append :
    (stops : ℕ → Bool) (s t : Text)
    → All (λ c. stops c ≡ false) s
    → StopsAt stops t
    → until stops (s ++ t) ≡ s
unfolding until
until-append stops [] [] h k = refl
until-append stops [] (c ∷ t) h k = rw (k, until) refl
until-append stops (c ∷ s) t h k = rw (h.0, until) (ap (◌∷◌ c) (until-append stops s t h.1 k))

-- The text from a cut on.
pub from_first-append :
    (stops : ℕ → Bool) (s t : Text)
    → All (λ c. stops c ≡ false) s
    → StopsAt stops t
    → from_first stops (s ++ t) ≡ t
unfolding from_first
from_first-append stops [] [] h k = refl
from_first-append stops [] (c ∷ t) h k = rw (k, from_first) refl
from_first-append stops (c ∷ s) t h k = rw (h.0, from_first) (from_first-append stops s t h.1 k)

-- A character in front of the first piece.
abbrev extend : ℕ → List Text → List Text
extend c [] = []
extend c (piece ∷ pieces) = (c ∷ piece) ∷ pieces

split_uncut :
    (stops : ℕ → Bool) (c : ℕ) (s : Text)
    → stops c ≡ false
    → split stops (c ∷ s) ≡ extend c (split stops s)
unfolding split split_at
split_uncut stops c s h = rw (h, split_at) refl

split_cut :
    (stops : ℕ → Bool) (c : ℕ) (s : Text)
    → stops c ≡ true
    → split stops (c ∷ s) ≡ [] ∷ split stops s
unfolding split split_at
split_cut stops c s h = rw (h, split_at) refl

split_nil : (stops : ℕ → Bool) → split stops [] ≡ [] ∷ []
unfolding split split_at
split_nil stops = refl

-- A split at its first cut.
pub split-append :
    (stops : ℕ → Bool) (s : Text) (c : ℕ) (t : Text)
    → All (λ d. stops d ≡ false) s
    → stops c ≡ true
    → split stops (s ++ (c ∷ t)) ≡ s ∷ split stops t
split-append stops [] c t h k = split_cut stops c t k
split-append stops (d ∷ s) c t h k =
    split_uncut stops d (s ++ (c ∷ t)) h.0 ∙ ap (extend d) (split-append stops s c t h.1 k)

pub split-All :
    (stops : ℕ → Bool) (s : Text) → All (λ d. stops d ≡ false) s → split stops s ≡ s ∷ []
split-All stops [] h = split_nil stops
split-All stops (d ∷ s) h = split_uncut stops d s h.0 ∙ ap (extend d) (split-All stops s h.1)

-- The pieces, with a character between each of them and the next.
abbrev pub join : ℕ → List Text → Text
join c [] = []
join c (piece ∷ []) = piece
join c (piece ∷ next ∷ pieces) = piece ++ (c ∷ join c (next ∷ pieces))

-- The pieces of a text that is put together of them.
pub split-join :
    (c : ℕ) (piece : Text) (pieces : List Text)
    → All (All (λ d. (d == c) ≡ false)) (piece ∷ pieces)
    → split (λ d. d == c) (join c (piece ∷ pieces)) ≡ piece ∷ pieces
split-join c piece [] h = split-All (λ d. d == c) piece h.0
split-join c piece (next ∷ pieces) h =
    split-append (λ d. d == c) piece c (join c (next ∷ pieces)) h.0 (ground arith)
    ∙ ap (◌∷◌ piece) (split-join c next pieces h.1)

-- The text is put together of its pieces, and no piece has the character.
pub record Pieces (c : ℕ) (s : Text) (pieces : List Text) : Type 0 where
  pub whole : join c pieces ≡ s
  pub uncut : All (All (λ d. (d == c) ≡ false)) pieces
  pub some_piece : pieces ≢ []

extend-Pieces :
    (c d : ℕ) (s : Text) (pieces : List Text)
    → (d == c) ≡ false
    → Pieces c s pieces
    → Pieces c (d ∷ s) (extend d pieces)
extend-Pieces c d s [] h p = absurd (p.some_piece refl)
extend-Pieces c d s (piece ∷ []) h p = record {
  whole = ap (◌∷◌ d) p.whole;
  uncut = ((h, p.uncut.0), tt);
  some_piece = λ e. cc e;
}
extend-Pieces c d s (piece ∷ next ∷ pieces) h p = record {
  whole = ap (◌∷◌ d) p.whole;
  uncut = ((h, p.uncut.0), p.uncut.1);
  some_piece = λ e. cc e;
}

cut-Pieces :
    (c d : ℕ) (s : Text) (pieces : List Text)
    → d ≡ c
    → Pieces c s pieces
    → Pieces c (d ∷ s) ([] ∷ pieces)
cut-Pieces c d s [] h p = absurd (p.some_piece refl)
cut-Pieces c d s (piece ∷ pieces) h p = record {
  whole = ap₂ ◌∷◌ (sym h) p.whole;
  uncut = (tt, p.uncut);
  some_piece = λ e. cc e;
}

pub split-Pieces : (c : ℕ) (s : Text) → Pieces c s (split (λ d. d == c) s)
split-Pieces c [] =
    subst (Pieces c []) (sym (split_nil (λ d. d == c)))
      (record { whole = refl; uncut = (tt, tt); some_piece = λ e. cc e })
split-Pieces c (d ∷ s) = elim (Bool-cases (d == c)) [
  | inl same ↦
      subst (Pieces c (d ∷ s)) (sym (split_cut (λ k. k == c) d s same))
        (cut-Pieces c d s (split (λ k. k == c) s) (ground arith) (split-Pieces c s))
  | inr other ↦
      subst (Pieces c (d ∷ s)) (sym (split_uncut (λ k. k == c) d s other))
        (extend-Pieces c d s (split (λ k. k == c) s) other (split-Pieces c s))
]

-- The second piece of a split is what stands between the first two cuts.
pub record Second (stops : ℕ → Bool) (s piece : Text) : Type 0 where
  pub before : Text
  pub cut : ℕ
  pub after : Text
  pub whole : s ≡ before ++ (cut ∷ (piece ++ after))
  pub before_ends : All (λ d. stops d ≡ false) before
  pub cuts : stops cut ≡ true
  pub piece_ends : All (λ d. stops d ≡ false) piece
  pub after_starts : StopsAt stops after

split_first : (stops : ℕ → Bool) (s : Text) → get_elem? (split stops s) 0 ≡ some (until stops s)
unfolding split
split_first stops s = ap some (split_at_first stops s)

pub Second-split :
    (stops : ℕ → Bool) (s piece : Text)
    → Second stops s piece
    → get_elem? (split stops s) 1 ≡ some piece
Second-split stops s piece p =
    ap (λ t. get_elem? (split stops t) 1) p.whole
    ∙ ap (λ ps. get_elem? ps 1)
        (split-append stops p.before p.cut (piece ++ p.after) p.before_ends p.cuts)
    ∙ split_first stops (piece ++ p.after)
    ∙ ap some (until-append stops piece p.after p.piece_ends p.after_starts)

pub split-Second :
    (stops : ℕ → Bool) (s piece : Text)
    → get_elem? (split stops s) 1 ≡ some piece
    → Second stops s piece
split-Second stops s piece h = cut_at (from_first stops s) refl (from_first-StopsAt stops s)
  where
    cut_at : (rest : Text) → from_first stops s ≡ rest → StopsAt stops rest → Second stops s piece
    cut_at [] e starts =
        let same : until stops s ≡ s =
          sym (append-nil (until stops s))
          ∙ ap (λ t. until stops s ++ t) (sym e)
          ∙ until-from_first stops s in
        let one : split stops s ≡ s ∷ [] =
          split-All stops s (subst (All (λ d. stops d ≡ false)) same (until-All stops s)) in
        absurd (cc (sym (ap (λ ps. get_elem? ps 1) one) ∙ h))
    cut_at (c ∷ t) e starts =
        let cut : s ≡ until stops s ++ (c ∷ t) =
          sym (until-from_first stops s) ∙ ap (λ r. until stops s ++ r) e in
        let second : get_elem? (split stops s) 1 ≡ some (until stops t) =
          ap (λ r. get_elem? (split stops r) 1) cut
          ∙ ap (λ ps. get_elem? ps 1)
              (split-append stops (until stops s) c t (until-All stops s) starts)
          ∙ split_first stops t in
        let is_piece : until stops t ≡ piece = cc (sym second ∙ h) in
        record {
          before = until stops s;
          cut = c;
          after = from_first stops t;
          whole =
              cut
              ∙ ap (λ r. until stops s ++ (c ∷ r))
                  (sym (until-from_first stops t) ∙ ap (λ r. r ++ from_first stops t) is_piece);
          before_ends = until-All stops s;
          cuts = starts;
          piece_ends = subst (All (λ d. stops d ≡ false)) is_piece (until-All stops t);
          after_starts = from_first-StopsAt stops t;
        }
