-- ===== src/Client/Handshake.antt =====
-- src/stratum/client.rs: the handshake's loop over the replies, and the session that a connect
-- makes. Text is ASCII, and what `read_line` returned is a list of events; `parse` is
-- `serde_json::from_str` into a `Response`, and the resolved address, the socket and the requests
-- written to it are inputs.
pub mod Pushes
pub mod FirstJob
use csd_mining_pool_public.Prelude.{
  ℕ, ◌+◌, Bool, true, false, not, ◌&&◌, ◌||◌, Option, none, some, List, [], ◌∷◌, ◌++◌, Text, ◌==◌,
  if◌then◌else◌, u64,
}
use csd_mining_pool_public.Prelude.Ascii.{trim}
use csd_mining_pool_public.Prelude.Float.{F64, nan, of_nat}
use csd_mining_pool_public.Prelude.Results.{Result, ok, err}
use csd_mining_pool_public.Protocol.{
  Value, null, as_bool, Response, SubscribeResult, ParseError, parse_subscribe,
}
use csd_mining_pool_public.Client.{Codec, SessionStats, Shared}
use csd_mining_pool_public.Client.Reader.{Handshake, dispatch_all}

-- What `read_line` returns.
pub data LineRead : Type 0 where
  line : Text → LineRead
  closed : LineRead
  failed : LineRead

pub data HandshakeError : Type 0 where
  read_failed : HandshakeError
  connection_closed : HandshakeError
  subscribe_failed : Value → HandshakeError
  bad_subscribe : ParseError → HandshakeError
  authorize_rejected : Value → HandshakeError
  unauthorized : HandshakeError

-- What a trimmed line is to the loop.
pub data Reply : Type 0 where
  skipped : Reply
  push : Reply
  subscribed : SubscribeResult → Reply
  authorized : Bool → Reply
  refused : HandshakeError → Reply

-- `error` as the loop tests it: there, and not null.
unfoldable pub failure : Option Value → Option Value
failure none = none
failure (some null) = none
failure (some e) = some e

unfoldable pub parsed_subscribe : Result ParseError SubscribeResult → Reply
parsed_subscribe (ok s) = subscribed s
parsed_subscribe (err e) = refused (bad_subscribe e)

unfoldable pub on_subscribe : Option Value → Value → Reply
unfolding parsed_subscribe
on_subscribe (some e) result = refused (subscribe_failed e)
on_subscribe none result = parsed_subscribe (parse_subscribe result)

unfoldable pub or_false : Option Bool → Bool
or_false none = false
or_false (some b) = b

unfoldable pub on_authorize : Option Value → Value → Reply
unfolding or_false
on_authorize (some e) result = refused (authorize_rejected e)
on_authorize none result = authorized (or_false (as_bool result))

unfoldable pub on_id : Option ℕ → Response → Reply
unfolding on_subscribe on_authorize failure
on_id none r = push
on_id (some id) r =
    if id == 1
    then on_subscribe (failure r.error) r.result
    else if id == 2
    then on_authorize (failure r.error) r.result
    else push

unfoldable pub on_response : Option Response → Reply
unfolding on_id
on_response none = push
on_response (some r) = on_id r.id r

unfoldable pub is_empty : Text → Bool
is_empty [] = true
is_empty (c ∷ s) = false

-- `trimmed` is the line without its white space.
unfoldable pub reply_of : (Text → Option Response) → Text → Reply
unfolding on_response is_empty
reply_of parse trimmed = if is_empty trimmed then skipped else on_response (parse trimmed)

-- The loop's variables.
pub record Replies : Type 0 where
  pub subscribe : Option SubscribeResult
  pub authorized_as : Option Bool
  pub early_pushes : List Text

-- After the loop.
unfoldable pub conclude : SubscribeResult → Bool → List Text → Result HandshakeError Handshake
conclude s true pushes = ok (record { subscribe = s; early_pushes = pushes })
conclude s false pushes = err unauthorized

-- A reply that the loop goes on from, or the error that it returns.
unfoldable pub take_reply : Reply → Text → Replies → Result HandshakeError Replies
take_reply skipped t r = ok r
take_reply push t r = ok (record r { early_pushes = r.early_pushes ++ (t ∷ []) })
take_reply (subscribed s) t r = ok (record r { subscribe = some s })
take_reply (authorized b) t r = ok (record r { authorized_as = some b })
take_reply (refused e) t r = err e

-- Both replies are there.
unfoldable pub both : Option SubscribeResult → Option Bool → Option (SubscribeResult × Bool)
both (some s) (some b) = some (s, b)
both _ _ = none

module _ (parse : Text → Option Response) where
  -- A line that is not the end of the loop: the variables after it, or the error.
  unfoldable pub on_read : LineRead → Replies → Result HandshakeError Replies
  unfolding reply_of take_reply trim
  on_read closed r = err connection_closed
  on_read failed r = err read_failed
  on_read (line t) r = take_reply (reply_of parse (trim t)) (trim t) r

  -- The loop; nothing while it waits for a line.
  unfoldable pub handshake_loop : List LineRead → Replies → Option (Result HandshakeError Handshake)
  unfolding both conclude on_read
  handshake_loop [] r = elim (both r.subscribe r.authorized_as) [
    | some (s, b) ↦ some (conclude s b r.early_pushes)
    | none ↦ none
  ]
  handshake_loop (read ∷ reads) r = elim (both r.subscribe r.authorized_as) [
    | some (s, b) ↦ some (conclude s b r.early_pushes)
    | none ↦ elim (on_read read r) [ err e ↦ some (err e) | ok next ↦ handshake_loop reads next ]
  ]

abbrev pub no_replies : Replies
no_replies = record { subscribe = none; authorized_as = none; early_pushes = [] }

-- `Shared` as `connect_failover` makes it, before the pushes.
unfoldable pub new_shared : SubscribeResult → Text → SessionStats → Shared
new_shared subscribe endpoint stats = record {
  latest_job = none;
  difficulty = of_nat 1;
  extranonce1_hex = subscribe.extranonce1_hex;
  extranonce2_size = u64 subscribe.extranonce2_size;
  shutdown = false;
  force_failover = false;
  stats = stats;
  current_endpoint = endpoint;
  suggest_difficulty = nan;
  new_job = false;
}

-- `SessionStats::default()`.
abbrev pub default_stats : SessionStats
default_stats = record {
  accepted = 0;
  rejected = 0;
  stale = 0;
  submitted = 0;
  consecutive_unacked = 0;
  last_accept_ms = 0;
  last_new_job_ms = 0;
  last_reconnect_ms = 0;
  reconnects = 0;
  failovers = 0;
}

-- What `connect_failover` does with the handshake of its first endpoint.
unfoldable pub connected_shared : Codec → Text → ℕ → Handshake → Shared
unfolding new_shared dispatch_all
connected_shared codec endpoint now_ms hs =
    dispatch_all codec hs.early_pushes now_ms (new_shared hs.subscribe endpoint default_stats)
