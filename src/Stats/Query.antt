-- ===== src/Stats/Query.antt =====
-- src/stats_server.rs: the `token` of a request's query.
use csd_mining_pool_public.Prelude.{
  ℕ, ◌≡◌, refl, sym, ap, ◌∙◌, ◌↔◌, ◌⊎◌, inl, inr, Bool, true, false, Option, none, some, List, [],
  ◌∷◌, ◌++◌, Text, codes, text_eq, text_eq_iff, arith, ◌==◌, All, get_elem?, subst, Bool-cases,
}
use csd_mining_pool_public.Prelude.Ascii.{until, from_first, strip_prefix, split, until-from_first}
use csd_mining_pool_public.Prelude.Cuts.{
  StopsAt, from_first-StopsAt, join, split-join, split-Pieces, Second-split, split-Second,
}
use csd_mining_pool_public.Stats.{token_pair, token_in, token_of_query, query_token}

abbrev pub is_question : ℕ → Bool
is_question c = c == b'?'

abbrev is_equals : ℕ → Bool
is_equals c = c == b'='

-- A pair with the key `token`, with or without a value.
abbrev pub Keyed : Text → Type 0
Keyed pair = (pair ≡ codes "token") ⊎ ((value : Text) × (pair ≡ codes "token=" ++ value))

-- A query with a token: of the pairs between its `&`s, the first one with the key has the token.
pub record HasToken (query token : Text) : Type 0 where
  pub before : List Text
  pub after : List Text
  pub whole : query ≡ join b'&' (before ++ ((codes "token=" ++ token) ∷ after))
  pub uncut : All (All (λ c. (c == b'&') ≡ false)) (before ++ ((codes "token=" ++ token) ∷ after))
  pub first : All (λ pair. Keyed pair → ⊥) before

-- A target with a token in its query, which ends at a second `?`.
pub record TargetToken (target token : Text) : Type 0 where
  pub path : Text
  pub query : Text
  pub tail : Text
  pub whole : target ≡ path ++ (b'?' ∷ (query ++ tail))
  pub path_ends : All (λ c. is_question c ≡ false) path
  pub query_ends : All (λ c. is_question c ≡ false) query
  pub tail_starts : StopsAt is_question tail
  pub has : HasToken query token

-- What a pair is, by what is read of it.
abbrev Reads : Text → Option (Option Text) → Type 0
Reads pair none = Keyed pair → ⊥
Reads pair (some none) = Keyed pair
Reads pair (some (some value)) = pair ≡ codes "token=" ++ value

token_pair_value : (value : Text) → token_pair (codes "token=" ++ value) ≡ some (some value)
unfolding token_pair until from_first strip_prefix text_eq
token_pair_value value = refl

token_pair_bare : token_pair (codes "token") ≡ some none
unfolding token_pair until from_first strip_prefix text_eq
token_pair_bare = refl

Keyed-token_pair : (pair : Text) → Keyed pair → token_pair pair ≡ none → ⊥
Keyed-token_pair pair (inl bare) h =
    let e : token_pair pair ≡ some none = ap token_pair bare ∙ token_pair_bare in cc (e, h)
Keyed-token_pair pair (inr (value, has)) h =
    let e : token_pair pair ≡ some (some value) = ap token_pair has ∙ token_pair_value value in
    cc (e, h)

-- The pair with the key before a rest that is nothing or starts with `=`.
rest_Reads :
    (pair rest : Text)
    → pair ≡ codes "token" ++ rest
    → StopsAt is_equals rest
    → Reads pair (some (strip_prefix (codes "=") rest))
unfolding strip_prefix
rest_Reads pair [] e h = inl e
rest_Reads pair (c ∷ value) e h =
    let same : c ≡ b'=' = ground arith in
    subst
      (λ d.
        pair ≡ codes "token" ++ (d ∷ value)
        → Reads pair (some (strip_prefix (codes "=") (d ∷ value))))
      (sym same) (λ k. k) e

-- A text is cut at its first `=`.
key_and_rest :
    (pair : Text)
    → until is_equals pair ≡ codes "token"
    → pair ≡ codes "token" ++ from_first is_equals pair
key_and_rest pair e =
    sym (until-from_first is_equals pair) ∙ ap (λ k. k ++ from_first is_equals pair) e

token_pair_key :
    (s : Text)
    → text_eq (until is_equals s) (codes "token") ≡ true
    → token_pair s ≡ some (strip_prefix (codes "=") (from_first is_equals s))
unfolding token_pair
token_pair_key s h = rw h refl

token_pair_other :
    (s : Text) → text_eq (until is_equals s) (codes "token") ≡ false → token_pair s ≡ none
unfolding token_pair
token_pair_other s h = rw h refl

-- A pair with the key has it before its first `=`.
token_pair-Reads : (pair : Text) → Reads pair (token_pair pair)
token_pair-Reads pair = elim (Bool-cases (text_eq (until is_equals pair) (codes "token"))) [
  | inl key ↦ subst (Reads pair) (sym (token_pair_key pair key)) (
      rest_Reads pair (from_first is_equals pair)
        (key_and_rest pair ((text_eq_iff (until is_equals pair) (codes "token")).0 key))
        (from_first-StopsAt is_equals pair))
  | inr other ↦
      subst (Reads pair) (sym (token_pair_other pair other))
        (λ k. Keyed-token_pair pair k (token_pair_other pair other))
]

-- The pair whose token is taken, among the pairs.
record Taken (pairs : List Text) (token : Text) : Type 0 where
  before : List Text
  after : List Text
  whole : pairs ≡ before ++ ((codes "token=" ++ token) ∷ after)
  first : All (λ pair. Keyed pair → ⊥) before

token_in-Taken :
    (pairs : List Text) (token : Text) → token_in pairs ≡ some token → Taken pairs token
unfolding token_in
token_in-Taken [] token h = absurd (cc h)
token_in-Taken (pair ∷ pairs) token h =
    by_pair (token_pair pair) refl (token_pair-Reads pair) (λ k. token_in-Taken pairs token k)
  where
    by_pair :
        (o : Option (Option Text))
        → token_pair pair ≡ o
        → Reads pair o
        → (token_in pairs ≡ some token → Taken pairs token)
        → Taken (pair ∷ pairs) token
    by_pair (some (some value)) e is later =
        let same : value ≡ token = cc (rw (e, token_in) at h) in
        record {
          before = [];
          after = pairs;
          whole = ap (λ p. p ∷ pairs) (is ∙ ap (λ v. codes "token=" ++ v) same);
          first = tt;
        }
    by_pair (some none) e is later = absurd (cc (rw (e, token_in) at h))
    by_pair none e is later =
        let t = later (rw (e, token_in) at h) in
        record {
          before = pair ∷ t.before;
          after = t.after;
          whole = ap (◌∷◌ pair) t.whole;
          first = (is, t.first);
        }

token_pair_unkeyed : (pair : Text) → (Keyed pair → ⊥) → token_pair pair ≡ none
token_pair_unkeyed pair unkeyed = by_read (token_pair pair) (token_pair-Reads pair)
  where
    by_read : (o : Option (Option Text)) → Reads pair o → o ≡ none
    by_read none is = refl
    by_read (some none) is = absurd (unkeyed is)
    by_read (some (some value)) is = absurd (unkeyed (inr (value, is)))

token_in_first :
    (before : List Text) (token : Text) (after : List Text)
    → All (λ pair. Keyed pair → ⊥) before
    → token_in (before ++ ((codes "token=" ++ token) ∷ after)) ≡ some token
unfolding token_in
token_in_first [] token after first = rw (token_pair_value token, token_in) refl
token_in_first (pair ∷ before) token after first =
    rw (token_pair_unkeyed pair first.0, token_in) (token_in_first before token after first.1)

token_of_query-HasToken :
    (query token : Text) → token_of_query (some query) ≡ some token → HasToken query token
unfolding token_of_query
token_of_query-HasToken query token h =
    let pairs = split (λ c. c == b'&') query in
    let p = split-Pieces b'&' query in
    let t = token_in-Taken pairs token h in
    record {
      before = t.before;
      after = t.after;
      whole = sym p.whole ∙ ap (join b'&') t.whole;
      uncut = subst (All (All (λ c. (c == b'&') ≡ false))) t.whole p.uncut;
      first = t.first;
    }

split_pairs :
    (before : List Text) (pair : Text) (after : List Text)
    → All (All (λ c. (c == b'&') ≡ false)) (before ++ (pair ∷ after))
    → split (λ c. c == b'&') (join b'&' (before ++ (pair ∷ after))) ≡ before ++ (pair ∷ after)
split_pairs [] pair after h = split-join b'&' pair after h
split_pairs (first ∷ before) pair after h = split-join b'&' first (before ++ (pair ∷ after)) h

HasToken-token_of_query :
    (query token : Text) → HasToken query token → token_of_query (some query) ≡ some token
unfolding token_of_query
HasToken-token_of_query query token t =
    ap token_in (
      ap (split (λ c. c == b'&')) t.whole
      ∙ split_pairs t.before (codes "token=" ++ token) t.after t.uncut)
    ∙ token_in_first t.before token t.after t.first

-- The token of a target, by the target itself.
pub query_token_iff :
    (target token : Text) → (query_token target ≡ some token) ↔ TargetToken target token
unfolding query_token
query_token_iff target token = (
  λ h. by_query (get_elem? (split is_question target) 1) refl h,
  λ t.
      ap token_of_query (
        Second-split is_question target t.query (record {
          before = t.path;
          cut = b'?';
          after = t.tail;
          whole = t.whole;
          before_ends = t.path_ends;
          cuts = refl;
          piece_ends = t.query_ends;
          after_starts = t.tail_starts;
        }))
      ∙ HasToken-token_of_query t.query token t.has,
)
  where
    by_query :
        (o : Option Text)
        → get_elem? (split is_question target) 1 ≡ o
        → token_of_query o ≡ some token
        → TargetToken target token
    by_query none e h = unfold token_of_query in absurd (cc h)
    by_query (some query) e h =
        let s = split-Second is_question target query e in
        let is_cut : s.cut ≡ b'?' = ground (arith, s.cuts) in
        record {
          path = s.before;
          query = query;
          tail = s.after;
          whole = s.whole ∙ ap (λ c. s.before ++ (c ∷ (query ++ s.after))) is_cut;
          path_ends = s.before_ends;
          query_ends = s.piece_ends;
          tail_starts = s.after_starts;
          has = token_of_query-HasToken query token h;
        }
