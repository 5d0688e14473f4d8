-- ===== src/Client.antt =====
-- src/stratum/client.rs, the session: counters, acks, server pushes and submits. `Shared` is a
-- record that the handlers pass on; an `AtomicU64` adds modulo 2 ^ 64. The JSON crate is the
-- parameter `Codec`, and the clock's reading is an argument.
pub mod Reader
pub mod Acks
pub mod Jobs
pub mod Reconnect
pub mod Failover
pub mod Handshake
use csd_mining_pool_public.Prelude.{
  ℕ, suc, ◌+◌, ◌-◌, ◌/◌, Bool, true, false, not, ◌&&◌, ◌||◌, Option, none, some, List, [], ◌∷◌,
  Text, codes, text_eq, take, length, ltb, leb, ◌==◌, if◌then◌else◌, u64, get_elem?,
}
use csd_mining_pool_public.Prelude.Float.{F64, nan, is_finite, flt, of_nat}
use csd_mining_pool_public.Prelude.Results.{Result, ok, err, and_then}
use csd_mining_pool_public.Protocol.{
  Value, null, string, array, object, Values, nil, cons, Members, empty, member, as_str, as_bool,
  as_u64, as_f64, as_array, Notification, NotifyParams, ParseError, parse_notify,
}

-- `serde_json`: the value and the notification of a line, and the text of a value.
pub record Codec : Type 0 where
  pub value : Text → Option Value
  pub notification : Text → Option Notification
  pub print : Value → Text

pub data ErrorKind : Type 0 where
  would_block : ErrorKind
  timed_out : ErrorKind
  interrupted : ErrorKind
  other : ErrorKind

pub data ReadAction : Type 0 where
  frame : ReadAction
  idle : ReadAction
  reconnect_now : ReadAction

unfoldable pub classify_read : Result ErrorKind ℕ → ReadAction
classify_read (ok n) = if n == 0 then reconnect_now else frame
classify_read (err would_block) = idle
classify_read (err timed_out) = idle
classify_read (err interrupted) = idle
classify_read (err other) = reconnect_now

pub data Ack : Type 0 where
  accepted : Ack
  rejected : Text → Ack
  stale : Ack

pub record SessionStats : Type 0 where
  pub accepted : ℕ
  pub rejected : ℕ
  pub stale : ℕ
  pub submitted : ℕ
  pub consecutive_unacked : ℕ
  pub last_accept_ms : ℕ
  pub last_new_job_ms : ℕ
  pub last_reconnect_ms : ℕ
  pub reconnects : ℕ
  pub failovers : ℕ

unfoldable pub milestone_to_post : ℕ → ℕ → Bool → Option ℕ
milestone_to_post total last_notified solutions_only =
    if solutions_only then none else if ltb last_notified total then some total else none

-- `obj.get(key)`.
unfoldable pub get : Text → Members → Option Value
get key empty = none
get key (member k v rest) = if text_eq k key then some v else get key rest

-- `to_ascii_lowercase` and `contains`.
unfoldable pub to_ascii_lowercase : Text → Text
to_ascii_lowercase [] = []
to_ascii_lowercase (c ∷ s) = (if leb b'A' c && leb c b'Z' then c + 32 else c) ∷ to_ascii_lowercase s

unfoldable pub contains : Text → Text → Bool
contains needle [] = text_eq needle []
contains needle (c ∷ s) = text_eq (take (length needle) (c ∷ s)) needle || contains needle s

unfoldable pub reason_by : Codec → Value → Option Text → Option Text → Text
reason_by codec e (some msg) s = msg
reason_by codec e none (some s) = s
reason_by codec e none none = codec.print e

unfoldable pub reason_from_error : Codec → Value → Text
unfolding reason_by
reason_from_error codec e =
    reason_by codec e (and_then (and_then (as_array e) (λ a. get_elem? a 1)) as_str) (as_str e)

unfoldable pub reason_of : Codec → Option Value → Text
unfolding reason_from_error
reason_of codec none = codes "rejected"
reason_of codec (some null) = codes "rejected"
reason_of codec (some e) = reason_from_error codec e

unfoldable pub classify_reject : Text → Ack
unfolding contains to_ascii_lowercase
classify_reject reason =
    let low = to_ascii_lowercase reason in
    if contains (codes "stale") low
      || contains (codes "job not found") low
      || contains (codes "unknown job") low
    then stale
    else rejected reason

unfoldable pub is_true : Option Bool → Bool
is_true none = false
is_true (some b) = b

unfoldable pub classify_reply : Codec → Members → ℕ → Option Ack
unfolding get reason_of classify_reject is_true
classify_reply codec obj id =
    if ltb id 100
    then none
    else if is_true (and_then (get (codes "result") obj) as_bool)
    then some accepted
    else some (classify_reject (reason_of codec (get (codes "error") obj)))

unfoldable pub classify_object : Codec → Members → Option Text → Option ℕ → Option Ack
unfolding classify_reply
classify_object codec obj (some method) id = none
classify_object codec obj none none = none
classify_object codec obj none (some id) = classify_reply codec obj id

unfoldable pub classify_value : Codec → Option Value → Option Ack
unfolding classify_object get
classify_value codec (some (object obj)) =
    classify_object codec obj (and_then (get (codes "method") obj) as_str)
      (and_then (get (codes "id") obj) as_u64)
classify_value codec _ = none

-- `line` is trimmed.
unfoldable pub classify_ack : Codec → Text → Option Ack
unfolding classify_value
classify_ack codec line = classify_value codec (codec.value line)

-- The stores of `record_ack`, on the ack of a frame.
unfoldable pub count_ack : Ack → ℕ → SessionStats → SessionStats
count_ack accepted now_ms s = record s {
  consecutive_unacked = 0;
  accepted = u64 (s.accepted + 1);
  last_accept_ms = now_ms;
}
count_ack (rejected reason) now_ms s = record s {
  consecutive_unacked = 0;
  rejected = u64 (s.rejected + 1);
}
count_ack stale now_ms s = record s { consecutive_unacked = 0; stale = u64 (s.stale + 1) }

unfoldable pub record_if : Option Ack → ℕ → SessionStats → SessionStats × Bool
unfolding count_ack
record_if none now_ms s = (s, false)
record_if (some ack) now_ms s = (count_ack ack now_ms s, true)

unfoldable pub record_ack : Codec → Text → ℕ → SessionStats → SessionStats × Bool
unfolding classify_ack record_if
record_ack codec line now_ms s = record_if (classify_ack codec line) now_ms s

pub record StratumJob : Type 0 where
  pub notify : NotifyParams
  pub extranonce1_hex : Text

-- An `f64` stored by its bits is the `f64`; NaN marks that no difficulty was suggested.
pub record Shared : Type 0 where
  pub latest_job : Option StratumJob
  pub difficulty : F64
  pub extranonce1_hex : Text
  pub extranonce2_size : ℕ
  pub shutdown : Bool
  pub force_failover : Bool
  pub stats : SessionStats
  pub current_endpoint : Text
  pub suggest_difficulty : F64
  pub new_job : Bool

unfoldable pub set_suggest_difficulty : F64 → Shared → Shared
set_suggest_difficulty d s = record s {
  suggest_difficulty = if is_finite d && flt (of_nat 0) d then d else nan;
}

unfoldable pub cached_suggest_difficulty : Shared → Option F64
cached_suggest_difficulty s =
    let d = s.suggest_difficulty in if is_finite d && flt (of_nat 0) d then some d else none
