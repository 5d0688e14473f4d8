-- ===== src/Protocol/Subscribe.antt =====
-- src/stratum/protocol.rs: the result of a subscribe.
use csd_mining_pool_public.Prelude.{
  false, ltb, ◌≡◌, ap, ◌∙◌, ◌↔◌, List, [], ◌∷◌, some, length, get_elem?, arith,
}
use csd_mining_pool_public.Prelude.Results.{ok, bind_ok, ok_or, ok_or_ok, ok_inj, guard_not_ok}
use csd_mining_pool_public.Protocol.{
  Value, string, array, as_u64, as_array, of_list, SubscribeResult, not_an_array, wrong_arity,
  size_not_u64, str_at, parse_subscribe_fields, parse_subscribe,
}
use csd_mining_pool_public.Protocol.Roundtrip.{as_array-some, to_list-of_list, str_at_ok}

long_enough : (arr : List Value) {v : Value} → get_elem? arr 2 ≡ some v → ltb (length arr) 3 ≡ false
long_enough [] h = absurd cc
long_enough (a ∷ []) h = absurd cc
long_enough (a ∷ b ∷ []) h = absurd cc
long_enough (a ∷ b ∷ c ∷ rest) h = ground arith

-- An array with the two fields that the miner reads, whatever else it holds.
pub record Subscribes (v : Value) (r : SubscribeResult) : Type 0 where
  pub elements : List Value
  pub size : Value
  pub is_array : v ≡ array (of_list elements)
  pub extranonce1_at : get_elem? elements 1 ≡ some (string r.extranonce1_hex)
  pub size_at : get_elem? elements 2 ≡ some size
  pub size_is : as_u64 size ≡ some r.extranonce2_size

parse_subscribe-only : (v : Value) (r : SubscribeResult) → parse_subscribe v ≡ ok r → Subscribes v r
unfolding parse_subscribe parse_subscribe_fields
parse_subscribe-only v r h =
    let (arr, is_array, h) = bind_ok (ok_or (as_array v) not_an_array) h in
    let (enough, h) = guard_not_ok (ltb (length arr) 3) (wrong_arity (length arr)) h in
    let (xn1, at1, h) = bind_ok (str_at arr 1) h in
    let (size, at2, h) = bind_ok (ok_or (get_elem? arr 2) size_not_u64) h in
    let (n, as2, h) = bind_ok (ok_or (as_u64 size) size_not_u64) h in
    let same : record { extranonce1_hex = xn1; extranonce2_size = n } ≡ r = ok_inj h in
    record {
      elements = arr;
      size = size;
      is_array = as_array-some v arr (ok_or_ok (as_array v) not_an_array is_array);
      extranonce1_at =
          str_at_ok arr 1 xn1 at1
          ∙ ap (λ (t : SubscribeResult). some (string t.extranonce1_hex)) same;
      size_at = ok_or_ok (get_elem? arr 2) size_not_u64 at2;
      size_is =
          ok_or_ok (as_u64 size) size_not_u64 as2
          ∙ ap (λ (t : SubscribeResult). some t.extranonce2_size) same;
    }

Subscribes-parse_subscribe :
    (v : Value) (r : SubscribeResult) → Subscribes v r → parse_subscribe v ≡ ok r
unfolding parse_subscribe parse_subscribe_fields str_at
Subscribes-parse_subscribe v r s = rw (
  s.is_array,
  to_list-of_list,
  long_enough s.elements s.size_at,
  s.extranonce1_at,
  s.size_at,
  s.size_is,
)

-- The parser of a subscribe result gives a result exactly for the arrays that hold its extranonce1
-- as a string at index 1 and its size as a u64 at index 2.
pub parse_subscribe_iff :
    (v : Value) (r : SubscribeResult) → (parse_subscribe v ≡ ok r) ↔ Subscribes v r
parse_subscribe_iff v r = (parse_subscribe-only v r, Subscribes-parse_subscribe v r)
