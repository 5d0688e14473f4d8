-- ===== src/Stats/Token.antt =====
-- src/stats_server.rs: who is served the summary.
use Prim.Native.Nat.{bit_or, bit_xor}
use csd_mining_pool_public.Prelude.{
  ℕ, ◌≤◌, ◌≡◌, refl, ap, ap₂, subst, ◌∙◌, ◌↔◌, ◌⊎◌, inl, inr, true, false, not, Option, none, some,
  List, [], ◌∷◌, Text, length, arith, ◌==◌, if◌then◌else◌, Bool-cases,
}
use csd_mining_pool_public.Prelude.Bits.{bit_or-zero}
use csd_mining_pool_public.Prelude.Xor.{bit_xor_eq, bit_xor_self, bit_or_ge}
use csd_mining_pool_public.Stats.Query.{TargetToken, query_token_iff}
use csd_mining_pool_public.Stats.Header.{HeaderToken, bearer_token_iff}
use csd_mining_pool_public.Stats.{
  differences, ct_eq, query_token, bearer_token, matches, authorized,
}

differences_ge : (a b : Text) (diff : ℕ) → diff ≤ differences a b diff
unfolding differences
differences_ge [] b diff = omega arith
differences_ge (x ∷ a) [] diff = omega arith
differences_ge (x ∷ a) (y ∷ b) diff =
    let (l, r) = bit_or_ge diff (bit_xor x y) in
    omega (arith, differences_ge a b (bit_or diff (bit_xor x y)))

differences_eq : (a b : Text) (diff : ℕ) → length a ≡ length b → differences a b diff ≡ 0 → a ≡ b
unfolding differences
differences_eq [] [] diff e h = refl
differences_eq [] (y ∷ b) diff e h = absurd (omega arith)
differences_eq (x ∷ a) [] diff e h = absurd (omega arith)
differences_eq (x ∷ a) (y ∷ b) diff e h =
    let (l, r) = bit_or_ge diff (bit_xor x y) in
    let zero_diff : bit_xor x y ≡ 0 =
      omega (arith, differences_ge a b (bit_or diff (bit_xor x y))) in
    ap₂ ◌∷◌ (bit_xor_eq x y zero_diff)
      (differences_eq a b (bit_or diff (bit_xor x y)) (omega arith) h)

differences_self : (a : Text) → differences a a 0 ≡ 0
unfolding differences
differences_self [] = refl
differences_self (x ∷ a) =
    ap (λ d. differences a a (bit_or 0 d)) (bit_xor_self x)
    ∙ ap (differences a a) (bit_or-zero 0)
    ∙ differences_self a

-- The comparison without an early return is equality.
pub ct_eq_iff : (a b : Text) → (ct_eq a b ≡ true) ↔ (a ≡ b)
unfolding ct_eq
ct_eq_iff a b = (
  λ h. differences_eq a b 0 (ground arith) (ground arith),
  λ e.
      subst (λ t. (if not (length a == length t) then false else differences a t 0 == 0) ≡ true) e
        (ground (arith, differences_self a)),
)

matches_iff : (o : Option Text) (p : Text) → (matches o p ≡ true) ↔ (o ≡ some p)
unfolding matches
matches_iff none p = ((λ h. cc), (λ h. cc))
matches_iff (some token) p =
    ((λ h. ap some ((ct_eq_iff token p).0 h)), (λ h. (ct_eq_iff token p).1 (cc h)))

-- A request to a server with a password p is authorized exactly if its target has a query, up to a
-- second `?`, in which the first pair with the key `token` is `token=p`, or if p is what follows
-- `Bearer `, without white space around it, in the first of its lines that is an `Authorization`
-- header with that scheme, the name in any case.
pub authorized_iff :
    (target : Text) (lines : List Text) (p : Text)
    → (authorized target lines (some p) ≡ true) ↔ (TargetToken target p ⊎ HeaderToken lines p)
unfolding authorized
authorized_iff target lines p =
    let by_query = query_token_iff target p in
    let by_header = bearer_token_iff lines p in
    let q = matches_iff (query_token target) p in
    let b = matches_iff (bearer_token lines) p in
    (
      λ h. elim (Bool-cases (matches (query_token target) p)) [
        | inl same ↦ inl (by_query.0 (q.0 same))
        | inr other ↦ inr (by_header.0 (b.0 (rw other at h)))
      ],
      λ h. elim h [
        | inl t ↦ rw (q.1 (by_query.1 t)) refl
        | inr t ↦ ground (arith, b.1 (by_header.1 t))
      ],
    )
