-- ===== src/Protocol.antt =====
-- src/stratum/protocol.rs: the JSON values of Stratum frames, the two parsers, and the requests.
-- `serde_json::Value` is the data type `Value`; the text of a frame is parsed and printed by that
-- crate. A JSON number is the `f64` that `as_f64` gives, and the `u64` that `as_u64` gives if any.
pub mod Roundtrip
pub mod Subscribe
use csd_mining_pool_public.Prelude.{
  ℕ, zero, suc, Bool, true, false, not, List, [], ◌∷◌, ◌++◌, Option, none, some, Text, codes,
  length, get_elem?, ltb, ◌==◌, if◌then◌else◌,
}
use csd_mining_pool_public.Prelude.Float.{F64}
use csd_mining_pool_public.Prelude.Results.{Result, ok, err, ◌>>=◌, ok_or}

-- The types of `serde_json::Value`, with its arrays and objects.
mutual
  pub data Value : Type 0 where
    null : Value
    bool : Bool → Value
    number : F64 → Option ℕ → Value
    string : Text → Value
    array : Values → Value
    object : Members → Value

  pub data Values : Type 0 where
    nil : Values
    cons : Value → Values → Values

  pub data Members : Type 0 where
    empty : Members
    member : Text → Value → Members → Members

-- `as_str`, `as_bool`, `as_u64`, `as_f64`, `as_array`.
abbrev pub as_str : Value → Option Text
as_str (string s) = some s
as_str _ = none

abbrev pub as_bool : Value → Option Bool
as_bool (bool b) = some b
as_bool _ = none

abbrev pub as_u64 : Value → Option ℕ
as_u64 (number f n) = n
as_u64 _ = none

abbrev pub as_f64 : Value → Option F64
as_f64 (number f n) = some f
as_f64 _ = none

abbrev pub to_list : Values → List Value
to_list nil = []
to_list (cons v vs) = v ∷ to_list vs

abbrev pub of_list : List Value → Values
of_list [] = nil
of_list (v ∷ vs) = cons v (of_list vs)

abbrev pub as_array : Value → Option (List Value)
as_array (array vs) = some (to_list vs)
as_array _ = none

-- The errors, one for each message of the source.
pub data ParseError : Type 0 where
  not_an_array : ParseError
  wrong_arity : ℕ → ParseError
  field_not_string : ℕ → ParseError
  merkle_not_array : ParseError
  merkle_branch_not_string : ℕ → ParseError
  clean_jobs_not_bool : ParseError
  size_not_u64 : ParseError

pub record Request : Type 0 where
  pub id : Option ℕ
  pub method : Text
  pub params : Value

pub record Response : Type 0 where
  pub id : Option ℕ
  pub result : Value
  pub error : Option Value

pub record Notification : Type 0 where
  pub method : Text
  pub params : Value

pub record NotifyParams : Type 0 where
  pub job_id : Text
  pub prev_hash_be_hex : Text
  pub coinb1_hex : Text
  pub coinb2_hex : Text
  pub merkle_branches_hex : List Text
  pub version_hex : Text
  pub nbits_hex : Text
  pub ntime_hex : Text
  pub clean_jobs : Bool

pub record SubscribeResult : Type 0 where
  pub extranonce1_hex : Text
  pub extranonce2_size : ℕ

-- `arr[idx]`, which the callers bound by a length check, read as a string.
unfoldable pub str_at : List Value → ℕ → Result ParseError Text
str_at arr idx = do
  v ← ok_or (get_elem? arr idx) (field_not_string idx)
  ok_or (as_str v) (field_not_string idx)

-- The strings of the merkle array, from index `i` on.
unfoldable pub strings : ℕ → List Value → Result ParseError (List Text)
strings i [] = ok []
strings i (v ∷ vs) = do
  s ← ok_or (as_str v) (merkle_branch_not_string i)
  rest ← strings (suc i) vs
  ok (s ∷ rest)

-- `NotifyParams::parse` after the length check.
unfoldable pub parse_notify_fields : List Value → Result ParseError NotifyParams
unfolding str_at strings
parse_notify_fields arr = do
  job_id ← str_at arr 0
  prev_hash_be_hex ← str_at arr 1
  coinb1_hex ← str_at arr 2
  coinb2_hex ← str_at arr 3
  branches ← ok_or (get_elem? arr 4) merkle_not_array
  branch_values ← ok_or (as_array branches) merkle_not_array
  merkle_branches_hex ← strings 0 branch_values
  version_hex ← str_at arr 5
  nbits_hex ← str_at arr 6
  ntime_hex ← str_at arr 7
  clean ← ok_or (get_elem? arr 8) clean_jobs_not_bool
  clean_jobs ← ok_or (as_bool clean) clean_jobs_not_bool
  ok (record {
    job_id = job_id;
    prev_hash_be_hex = prev_hash_be_hex;
    coinb1_hex = coinb1_hex;
    coinb2_hex = coinb2_hex;
    merkle_branches_hex = merkle_branches_hex;
    version_hex = version_hex;
    nbits_hex = nbits_hex;
    ntime_hex = ntime_hex;
    clean_jobs = clean_jobs;
  })

-- `NotifyParams::parse`.
unfoldable pub parse_notify : Value → Result ParseError NotifyParams
unfolding parse_notify_fields
parse_notify params = do
  arr ← ok_or (as_array params) not_an_array
  if length arr == 9 then parse_notify_fields arr else err (wrong_arity (length arr))

-- `SubscribeResult::parse` after the length check.
unfoldable pub parse_subscribe_fields : List Value → Result ParseError SubscribeResult
unfolding str_at
parse_subscribe_fields arr = do
  extranonce1_hex ← str_at arr 1
  size ← ok_or (get_elem? arr 2) size_not_u64
  extranonce2_size ← ok_or (as_u64 size) size_not_u64
  ok (record { extranonce1_hex = extranonce1_hex; extranonce2_size = extranonce2_size })

-- `SubscribeResult::parse`; `usize` has 64 bits, so its cast keeps the value.
unfoldable pub parse_subscribe : Value → Result ParseError SubscribeResult
unfolding parse_subscribe_fields
parse_subscribe result = do
  arr ← ok_or (as_array result) not_an_array
  if ltb (length arr) 3 then err (wrong_arity (length arr)) else parse_subscribe_fields arr

-- The requests. `version` is the crate's version, which the build gives.
unfoldable pub subscribe_request : Text → ℕ → Request
subscribe_request version id = record {
  id = some id;
  method = codes "mining.subscribe";
  params = array (of_list (string (codes "csd-gpu-miner/" ++ version) ∷ []));
}

unfoldable pub authorize_request : ℕ → Text → Request
authorize_request id worker = record {
  id = some id;
  method = codes "mining.authorize";
  params = array (of_list (string worker ∷ string (codes "x") ∷ []));
}

-- `json` of a float is that crate's conversion.
unfoldable pub suggest_difficulty_request : (F64 → Value) → F64 → Request
suggest_difficulty_request json d = record {
  id = none;
  method = codes "mining.suggest_difficulty";
  params = array (of_list (json d ∷ []));
}

unfoldable pub submit_request : ℕ → Text → Text → Text → Text → Text → Request
submit_request id worker job_id xn2_hex ntime_hex nonce_hex = record {
  id = some id;
  method = codes "mining.submit";
  params = array (
      of_list (
        string worker ∷ string job_id ∷ string xn2_hex ∷ string ntime_hex ∷ string nonce_hex ∷ []));
}
