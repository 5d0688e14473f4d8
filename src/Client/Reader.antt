-- ===== src/Client/Reader.antt =====
-- src/stratum/client.rs, what changes a session: a pushed frame, a submit, the reader thread's step
-- with its reconnect, and the watchdog's handle. Sockets, sleeps and clocks are inputs: a reconnect
-- is given its attempts, each with what the handshake returned and the times it read.
use csd_mining_pool_public.Prelude.{
  ℕ, ◌+◌, ◌*◌, min, Bool, true, false, not, ◌||◌, Option, none, some, List, [], ◌∷◌, Text, codes,
  text_eq, get_elem?, if◌then◌else◌, u64, from_secs,
}
use csd_mining_pool_public.Prelude.Float.{F64}
use csd_mining_pool_public.Prelude.Results.{Result, ok, err, and_then}
use csd_mining_pool_public.Endpoint.{EndpointList, current, advance, maybe_failback}
use csd_mining_pool_public.Watchdog.{WatchdogView}
use csd_mining_pool_public.Protocol.{
  as_array, as_f64, Notification, NotifyParams, SubscribeResult, ParseError, parse_notify, Request,
  submit_request,
}
use csd_mining_pool_public.Mapping.{SubmitFields}
use csd_mining_pool_public.Client.{
  Codec, ErrorKind, frame, idle, reconnect_now, classify_read, SessionStats, record_ack, StratumJob,
  Shared,
}

unfoldable pub job_changed : Option StratumJob → NotifyParams → Bool
job_changed none n = true
job_changed (some j) n = not (text_eq j.notify.job_id n.job_id)

unfoldable pub prev_changed : Option StratumJob → NotifyParams → Bool
prev_changed none n = true
prev_changed (some j) n = not (text_eq j.notify.prev_hash_be_hex n.prev_hash_be_hex)

-- A parsed `mining.notify`.
unfoldable pub on_notify : NotifyParams → ℕ → Shared → Shared
unfolding job_changed prev_changed
on_notify n now_ms s = record s {
  latest_job = some (record { notify = n; extranonce1_hex = s.extranonce1_hex });
  stats =
      if job_changed s.latest_job n then record s.stats { last_new_job_ms = now_ms } else s.stats;
  new_job = if prev_changed s.latest_job n then true else s.new_job;
}

unfoldable pub on_parsed : Result ParseError NotifyParams → ℕ → Shared → Shared
unfolding on_notify
on_parsed (ok n) now_ms s = on_notify n now_ms s
on_parsed (err e) now_ms s = s

unfoldable pub on_difficulty : Option F64 → Shared → Shared
on_difficulty none s = s
on_difficulty (some d) s = record s { difficulty = d }

unfoldable pub on_note : Option Notification → ℕ → Shared → Shared
unfolding on_parsed parse_notify on_difficulty
on_note none now_ms s = s
on_note (some note) now_ms s =
    if text_eq note.method (codes "mining.notify")
    then on_parsed (parse_notify note.params) now_ms s
    else if text_eq note.method (codes "mining.set_difficulty")
    then on_difficulty (and_then (and_then (as_array note.params) (λ a. get_elem? a 0)) as_f64) s
    else s

unfoldable pub dispatch_frame : Codec → Text → ℕ → Shared → Shared
unfolding on_note
dispatch_frame codec [] now_ms s = s
dispatch_frame codec (c ∷ line) now_ms s = on_note (codec.notification (c ∷ line)) now_ms s

-- `hs.early_pushes`, in order.
unfoldable pub dispatch_all : Codec → List Text → ℕ → Shared → Shared
dispatch_all codec [] now_ms s = s
dispatch_all codec (push ∷ pushes) now_ms s =
    dispatch_all codec pushes now_ms (dispatch_frame codec push now_ms s)

-- The stores of `send_submit` once the line is written; on a write error nothing is counted.
unfoldable pub count_submit : SessionStats → SessionStats
count_submit s = record s {
  submitted = u64 (s.submitted + 1);
  consecutive_unacked = u64 (s.consecutive_unacked + 1);
}

-- The request, the next id and the session after a submit.
pub record Sent : Type 0 where
  pub request : Request
  pub next_id : ℕ
  pub shared : Shared

-- `written`: the line went out. The id is taken either way.
unfoldable pub send_submit : Bool → ℕ → Text → Text → SubmitFields → Shared → Sent
unfolding count_submit
send_submit written next_id worker job_id fields s = record {
  request =
      submit_request next_id worker job_id fields.extranonce2_hex fields.ntime_hex fields.nonce_hex;
  next_id = u64 (next_id + 1);
  shared = if written then record s { stats = count_submit s.stats } else s;
}

abbrev pub backoff_min : ℕ
backoff_min = from_secs 1

abbrev pub backoff_max : ℕ
backoff_max = from_secs 30

abbrev pub failback_ms : ℕ
failback_ms = 30 * 60 * 1000

-- A handshake's session parameters and the pushes that came before its reply.
pub record Handshake : Type 0 where
  pub subscribe : SubscribeResult
  pub early_pushes : List Text

-- One turn of the reconnect loop: whether shutdown was asked for before and after the sleep, the
-- time of the failback check, the handshake, and the time of the stamps.
pub record Attempt : Type 0 where
  pub shutdown_before : Bool
  pub shutdown_after : Bool
  pub failback_now_ms : ℕ
  pub handshake : Option Handshake
  pub done_now_ms : ℕ

-- What the reader thread owns.
pub record ReaderState : Type 0 where
  pub endpoints : EndpointList
  pub backoff : ℕ
  pub shared : Shared

-- A successful handshake with the endpoint `ep`.
unfoldable pub install : Codec → Text → Handshake → ℕ → Shared → Shared
install codec ep hs now_ms s =
    let refreshed = record s {
      extranonce1_hex = hs.subscribe.extranonce1_hex;
      extranonce2_size = u64 hs.subscribe.extranonce2_size;
    } in
    let seeded = dispatch_all codec hs.early_pushes now_ms refreshed in
    record seeded {
      current_endpoint = ep;
      stats = record seeded.stats {
        consecutive_unacked = 0;
        last_reconnect_ms = now_ms;
        reconnects = u64 (seeded.stats.reconnects + 1);
      };
    }

pub data Reconnected : Type 0 where
  connected : ReaderState → Reconnected
  shut_down : ReaderState → Reconnected
  still_trying : ReaderState → Reconnected

unfoldable pub or_empty : Option Text → Text
or_empty none = []
or_empty (some ep) = ep

-- `reconnect`, over its turns so far.
unfoldable pub reconnect : Codec → List Attempt → ReaderState → Reconnected
unfolding or_empty
reconnect codec [] r = still_trying r
reconnect codec (a ∷ attempts) r =
    let endpoints = (maybe_failback r.endpoints a.failback_now_ms failback_ms).0 in
    let ep = or_empty (current endpoints) in
    let retried = reconnect codec attempts (record {
      endpoints = advance endpoints;
      backoff = min (r.backoff * 2) backoff_max;
      shared = r.shared;
    }) in
    if a.shutdown_before || a.shutdown_after then shut_down r else elim a.handshake [
      | some hs ↦ connected (record {
        endpoints = endpoints;
        backoff = backoff_min;
        shared = install codec ep hs a.done_now_ms r.shared;
      })
      | none ↦ retried
    ]

-- The armed failover, consumed by the next reconnect.
unfoldable pub take_failover : ReaderState → ReaderState
unfolding advance
take_failover r =
    if r.shared.force_failover
    then record r {
      endpoints = advance r.endpoints;
      shared = record r.shared {
        force_failover = false;
        stats = record r.shared.stats { failovers = u64 (r.shared.stats.failovers + 1) };
      };
    }
    else r

-- A frame: an ack is counted, anything else is dispatched.
unfoldable pub on_frame : Codec → Text → ℕ → Shared → Shared
on_frame codec line now_ms s =
    let (stats, acked) = record_ack codec line now_ms s.stats in
    if acked then record s { stats = stats } else dispatch_frame codec line now_ms s

-- One turn of the reader thread that does not see a shutdown: the read, the trimmed line, the time
-- and, for a lost link, the turns of the reconnect.
unfoldable pub reader_step :
    Codec → Result ErrorKind ℕ → Text → ℕ → List Attempt → ReaderState → Reconnected
reader_step codec read line now_ms attempts r = elim (classify_read read) [
  | frame ↦
      connected (record r { backoff = backoff_min; shared = on_frame codec line now_ms r.shared })
  | idle ↦ connected r
  | reconnect_now ↦ reconnect codec attempts (take_failover r)
]

-- `ClientWatchdog`: the session, with whether its socket was shut.
unfoldable pub client_watchdog : WatchdogView (Shared × Bool)
client_watchdog = record {
  snapshot = λ s. record {
    consecutive_unacked = s.0.stats.consecutive_unacked;
    last_new_job_ms = s.0.stats.last_new_job_ms;
    last_accept_ms = s.0.stats.last_accept_ms;
    last_reconnect_ms = s.0.stats.last_reconnect_ms;
  };
  request_reconnect = λ s. (s.0, true);
  request_failover = λ s. (record s.0 { force_failover = true }, true);
}
