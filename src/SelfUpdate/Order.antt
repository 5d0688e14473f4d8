-- ===== src/SelfUpdate/Order.antt =====
-- src/selfupdate.rs: updates over several releases.
use csd_mining_pool_public.Prelude.{
  ◌≡◌, refl, sym, ◌∙◌, inl, inr, true, false, Option, none, some, List, [], ◌∷◌, Text, arith,
  Bool-cases,
}
use csd_mining_pool_public.SelfUpdate.{Version, parse_version, is_newer, newer_than, should_update}

is_newer_trans : (a b c : Version) → is_newer b a ≡ true → is_newer c b ≡ true → is_newer c a ≡ true
unfolding is_newer
is_newer_trans a b c h k = ground arith

is_newer_irrefl : (a : Version) → is_newer a a ≡ false
unfolding is_newer
is_newer_irrefl a = ground arith

newer_than_trans :
    (a b c : Option Version) → newer_than a b ≡ true → newer_than b c ≡ true → newer_than a c ≡ true
unfolding newer_than
newer_than_trans a none c h k = absurd cc
newer_than_trans a (some b) none h k = absurd cc
newer_than_trans none (some b) (some c) h k = refl
newer_than_trans (some a) (some b) (some c) h k = is_newer_trans a b c h k

newer_than_irrefl : (a : Option Version) → newer_than a a ≡ false
unfolding newer_than
newer_than_irrefl none = refl
newer_than_irrefl (some a) = is_newer_irrefl a

-- Every release of the list is an update of the one before it, the first of `current`.
abbrev pub Updates : Text → List Text → Type 0
Updates current [] = Unit
Updates current (latest ∷ releases) =
    (should_update current latest ≡ true) × Updates latest releases

-- The last release of a list, or the one before it.
abbrev pub last_release : Text → List Text → Text
last_release current [] = current
last_release current (latest ∷ releases) = last_release latest releases

Updates-newer :
    (current latest : Text) (releases : List Text)
    → should_update current latest ≡ true
    → Updates latest releases
    → should_update current (last_release latest releases) ≡ true
Updates-newer current latest [] h u = h
Updates-newer current latest (next ∷ releases) h u =
    Updates-newer current next releases
      (unfold should_update in
        newer_than_trans (parse_version current) (parse_version latest) (parse_version next) h u.0)
      u.1

round_trip : (a b : Text) → should_update a b ≡ true → should_update b a ≡ true → false ≡ true
unfolding should_update
round_trip a b h k =
    sym (newer_than_irrefl (parse_version a))
    ∙ newer_than_trans (parse_version a) (parse_version b) (parse_version a) h k

-- A chain of one update or more never comes back: its last release does not update to the release
-- that it started from, nor to itself, whatever the texts of the versions are.
pub Updates-acyclic :
    (current latest : Text) (releases : List Text)
    → should_update current latest ≡ true
    → Updates latest releases
    → (should_update (last_release latest releases) current ≡ false)
      × (should_update (last_release latest releases) (last_release latest releases) ≡ false)
Updates-acyclic current latest releases h u =
    let last = last_release latest releases in
    let up = Updates-newer current latest releases h u in
    (
      elim (Bool-cases (should_update last current)) [
        | inr stays ↦ stays
        | inl back ↦ absurd (cc (round_trip current last up back))
      ],
      unfold should_update in newer_than_irrefl (parse_version last),
    )
