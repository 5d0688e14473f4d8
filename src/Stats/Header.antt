-- ===== src/Stats/Header.antt =====
-- src/stats_server.rs: the bearer token of a request's header lines.
use csd_mining_pool_public.Prelude.{
  ℕ, ◌≡◌, refl, sym, ap, ◌∙◌, ◌↔◌, inl, inr, Bool, false, Option, none, some, List, [], ◌∷◌, ◌++◌,
  Text, codes, text_eq, text_eq_iff, arith, ◌==◌, All, Bool-cases, Option-cases,
}
use csd_mining_pool_public.Prelude.Ascii.{
  trim, until, from_first, strip_prefix, to_lowercase, until-from_first, strip_prefix-some,
}
use csd_mining_pool_public.Prelude.Cuts.{
  StopsAt, from_first-StopsAt, until-All, until-append, from_first-append,
}
use csd_mining_pool_public.Stats.{bearer_of, bearer_token}

abbrev pub is_colon : ℕ → Bool
is_colon c = c == b':'

-- An `Authorization` header whose value is `Bearer ` and a token, which `credentials` is before its
-- white space is taken off.
pub record Bearer (line credentials : Text) : Type 0 where
  pub name : Text
  pub value : Text
  pub whole : line ≡ name ++ (b':' ∷ value)
  pub name_ends : All (λ c. is_colon c ≡ false) name
  pub is_authorization : to_lowercase (trim name) ≡ codes "authorization"
  pub scheme : trim value ≡ codes "Bearer " ++ credentials

-- The lines of a request with a token in the first of these headers.
pub record HeaderToken (lines : List Text) (token : Text) : Type 0 where
  pub before : List Text
  pub line : Text
  pub after : List Text
  pub credentials : Text
  pub whole : lines ≡ before ++ (line ∷ after)
  pub first : All (λ l. (c : Text) → Bearer l c → ⊥) before
  pub bears : Bearer line credentials
  pub trimmed : trim credentials ≡ token

-- What a value after the header's name gives.
abbrev credentials_of : Text → Option Text
credentials_of rest =
    strip_prefix (codes "Bearer ") (trim (elim rest [ [] ↦ [] | c ∷ value ↦ value ]))

bearer_of_named :
    (line : Text)
    → to_lowercase (trim (until is_colon line)) ≡ codes "authorization"
    → bearer_of line ≡ credentials_of (from_first is_colon line)
unfolding bearer_of
bearer_of_named line h =
    rw ((text_eq_iff (to_lowercase (trim (until is_colon line))) (codes "authorization")).1 h) refl

bearer_of_other :
    (line : Text)
    → text_eq (to_lowercase (trim (until is_colon line))) (codes "authorization") ≡ false
    → bearer_of line ≡ none
unfolding bearer_of
bearer_of_other line h = rw h refl

strip_prefix-append : (p s : Text) → strip_prefix p (p ++ s) ≡ some s
unfolding strip_prefix
strip_prefix-append [] s = refl
strip_prefix-append (c ∷ p) s = ground (arith, strip_prefix-append p s)

Bearer-bearer_of :
    (line credentials : Text) → Bearer line credentials → bearer_of line ≡ some credentials
Bearer-bearer_of line credentials b =
    let name : until is_colon line ≡ b.name =
      ap (until is_colon) b.whole
      ∙ until-append is_colon b.name (b':' ∷ b.value) b.name_ends refl in
    let rest : from_first is_colon line ≡ b':' ∷ b.value =
      ap (from_first is_colon) b.whole
      ∙ from_first-append is_colon b.name (b':' ∷ b.value) b.name_ends refl in
    bearer_of_named line (ap (λ n. to_lowercase (trim n)) name ∙ b.is_authorization)
    ∙ ap credentials_of rest
    ∙ ap (strip_prefix (codes "Bearer ")) b.scheme
    ∙ strip_prefix-append (codes "Bearer ") credentials

nothing_stripped : strip_prefix (codes "Bearer ") (trim []) ≡ none
unfolding strip_prefix trim
nothing_stripped = refl

bearer_of-Bearer :
    (line credentials : Text) → bearer_of line ≡ some credentials → Bearer line credentials
bearer_of-Bearer line credentials h =
    elim (Bool-cases
      (text_eq (to_lowercase (trim (until is_colon line))) (codes "authorization"))) [
        | inr other ↦ absurd (cc (sym (bearer_of_other line other) ∙ h))
        | inl same ↦
            let named =
              (text_eq_iff (to_lowercase (trim (until is_colon line))) (codes "authorization")).0
                same in
            by_rest (from_first is_colon line) refl (from_first-StopsAt is_colon line) named
              (sym (bearer_of_named line named) ∙ h)
      ]
  where
    by_rest :
        (rest : Text)
        → from_first is_colon line ≡ rest
        → StopsAt is_colon rest
        → to_lowercase (trim (until is_colon line)) ≡ codes "authorization"
        → credentials_of (from_first is_colon line) ≡ some credentials
        → Bearer line credentials
    by_rest [] e starts named k = absurd (cc (sym nothing_stripped ∙ sym (ap credentials_of e) ∙ k))
    by_rest (c ∷ value) e starts named k =
        let colon : c ≡ b':' = ground arith in
        record {
          name = until is_colon line;
          value = value;
          whole =
              sym (until-from_first is_colon line)
              ∙ ap (λ r. until is_colon line ++ r) (e ∙ ap (λ d. d ∷ value) colon);
          name_ends = until-All is_colon line;
          is_authorization = named;
          scheme =
              strip_prefix-some (codes "Bearer ") (trim value) credentials
                (sym (ap credentials_of e) ∙ k);
        }

some_inj : (a b : Text) → some a ≡ some b → a ≡ b
some_inj a b h = cc h

bearer_token-HeaderToken :
    (lines : List Text) (token : Text) → bearer_token lines ≡ some token → HeaderToken lines token
unfolding bearer_token
bearer_token-HeaderToken [] token h = absurd (cc h)
bearer_token-HeaderToken (line ∷ lines) token h =
    by_line (bearer_of line) refl (λ k. bearer_token-HeaderToken lines token k)
  where
    by_line :
        (o : Option Text)
        → bearer_of line ≡ o
        → (bearer_token lines ≡ some token → HeaderToken lines token)
        → HeaderToken (line ∷ lines) token
    by_line (some credentials) e later = record {
      before = [];
      line = line;
      after = lines;
      credentials = credentials;
      whole = refl;
      first = tt;
      bears = bearer_of-Bearer line credentials e;
      trimmed = some_inj (trim credentials) token (rw (e, bearer_token) at h);
    }
    by_line none e later =
        let t = later (rw (e, bearer_token) at h) in
        record {
          before = line ∷ t.before;
          line = t.line;
          after = t.after;
          credentials = t.credentials;
          whole = ap (◌∷◌ line) t.whole;
          first = (
            λ c b.
                let some_c : bearer_of line ≡ some c = Bearer-bearer_of line c b in cc (some_c, e),
            t.first,
          );
          bears = t.bears;
          trimmed = t.trimmed;
        }

no_bearer : (line : Text) → ((c : Text) → Bearer line c → ⊥) → bearer_of line ≡ none
no_bearer line none_borne = elim (Option-cases (bearer_of line)) [
  | inl nothing ↦ nothing
  | inr (c, e) ↦ absurd (none_borne c (bearer_of-Bearer line c e))
]

bearer_token_first :
    (before : List Text) (line : Text) (after : List Text) (credentials : Text)
    → All (λ l. (c : Text) → Bearer l c → ⊥) before
    → Bearer line credentials
    → bearer_token (before ++ (line ∷ after)) ≡ some (trim credentials)
unfolding bearer_token
bearer_token_first [] line after credentials first b =
    rw (Bearer-bearer_of line credentials b, bearer_token) refl
bearer_token_first (l ∷ before) line after credentials first b =
    rw (no_bearer l first.0, bearer_token)
      (bearer_token_first before line after credentials first.1 b)

-- The bearer token of the lines, by the lines themselves.
pub bearer_token_iff :
    (lines : List Text) (token : Text) → (bearer_token lines ≡ some token) ↔ HeaderToken lines token
bearer_token_iff lines token = (
  bearer_token-HeaderToken lines token,
  λ t.
      ap bearer_token t.whole
      ∙ bearer_token_first t.before t.line t.after t.credentials t.first t.bears
      ∙ ap some t.trimmed,
)
