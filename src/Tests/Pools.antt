-- ===== src/Tests/Pools.antt =====
-- The endpoint list, the watchdog and the client's session.
use csd_mining_pool_public.Prelude.{
  ◌≡◌, refl, true, false, none, some, List, [], ◌∷◌, Text, codes, text_eq, arith, u64,
}
use csd_mining_pool_public.Prelude.Float.{nan, of_nat}
use csd_mining_pool_public.Endpoint.{EndpointList, advance, maybe_failback}
use csd_mining_pool_public.Watchdog.{
  failover, default_cfg, job_is_stale, accept_deadman, accept_baseline, watchdog_decision,
}
use csd_mining_pool_public.Protocol.{Value, bool, number, object, member, empty, NotifyParams}
use csd_mining_pool_public.Protocol.Roundtrip.{notify_value}
use csd_mining_pool_public.Client.{
  Codec, SessionStats, Shared, record_ack, classify_ack, classify_value, classify_object,
  classify_reply, get, is_true, record_if, count_ack,
}
use csd_mining_pool_public.Client.Reader.{
  prev_changed, dispatch_frame, Attempt, ReaderState, reconnect, failback_ms,
}
use csd_mining_pool_public.Client.Acks.{
  submitted, received, stats_after, pending, stats_after-pending,
}
use csd_mining_pool_public.Client.Jobs.{dispatch_notify, dispatch_frame_preempts}
use csd_mining_pool_public.Client.Reconnect.{
  state_of, InRange, reconnect-InRange, Online, reconnect-Online,
}
use csd_mining_pool_public.Client.Failover.{snapshot_of, watchdog_failover_undone}

abbrev pools : List Text
pools = codes "a:1" ∷ codes "b:2" ∷ codes "c:3" ∷ []

-- On the primary, whose failback clock an earlier reconnect started.
abbrev on_primary : EndpointList
on_primary = record { all = pools; current = 0; last_failback_ms = 1000 }

abbrev on_backup : EndpointList
on_backup = record { all = pools; current = 1; last_failback_ms = 0 }

abbrev stats : SessionStats
stats = record {
  accepted = 5;
  rejected = 1;
  stale = 0;
  submitted = 8;
  consecutive_unacked = 2;
  last_accept_ms = 1500;
  last_new_job_ms = 1_900_000;
  last_reconnect_ms = 1200;
  reconnects = 1;
  failovers = 0;
}

abbrev shared : Shared
shared = record {
  latest_job = none;
  difficulty = of_nat 8;
  extranonce1_hex = codes "aabbccdd";
  extranonce2_size = 4;
  shutdown = false;
  force_failover = false;
  stats = stats;
  current_endpoint = codes "a:1";
  suggest_difficulty = nan;
  new_job = false;
}

fails_over : watchdog_decision (snapshot_of shared) default_cfg 2_000_000 ≡ some failover
unfolding watchdog_decision job_is_stale accept_deadman accept_baseline default_cfg
fails_over = refl

abbrev reader : ReaderState
reader = record { endpoints = on_primary; backoff = 1_000_000_000; shared = shared }

abbrev no_answer : Attempt
no_answer = record {
  shutdown_before = false;
  shutdown_after = false;
  failback_now_ms = 2_001_000;
  handshake = none;
  done_now_ms = 2_001_000;
}

abbrev answer : Attempt
answer = record no_answer {
  handshake = some (record {
    subscribe = record { extranonce1_hex = codes "11223344"; extranonce2_size = 4 };
    early_pushes = [];
  });
}

watchdog_failover_undone_example :
    ((advance on_primary).current ≡ 1)
    × ((maybe_failback (advance on_primary) 2_001_000 failback_ms).0.current ≡ 0)
    × ((maybe_failback (advance on_primary) 2_001_000 failback_ms).1 ≡ true)
watchdog_failover_undone_example =
    watchdog_failover_undone 2_000_000 reader answer fails_over (omega arith) refl
      (λ e. omega arith) (omega arith) (omega arith)

-- Every line is the reply to submit 100, and every line but the empty one is a notify.
abbrev accepted_reply : Value
accepted_reply =
    object (member (codes "id") (number nan (some 100)) (member (codes "result") (bool true) empty))

abbrev pub job : NotifyParams
job = record {
  job_id = codes "1";
  prev_hash_be_hex = codes "0001";
  coinb1_hex = [];
  coinb2_hex = [];
  merkle_branches_hex = [];
  version_hex = [];
  nbits_hex = [];
  ntime_hex = [];
  clean_jobs = true;
}

abbrev pub codec : Codec
codec = record {
  value = λ line. some accepted_reply;
  notification =
      λ line. some (record { method = codes "mining.notify"; params = notify_value job });
  print = λ v. [];
}

acked : (record_ack codec (codes "x") 77 stats).1 ≡ true
unfolding record_ack classify_ack classify_value classify_object classify_reply get is_true
    record_if count_ack text_eq
acked = refl

stats_after-pending_example :
    (stats_after codec stats
      (submitted ∷ submitted ∷ received (codes "x") 77 ∷ submitted ∷ [])).consecutive_unacked
    ≡ u64 (pending codec stats (submitted ∷ submitted ∷ received (codes "x") 77 ∷ submitted ∷ []))
stats_after-pending_example =
    stats_after-pending codec stats
      (submitted ∷ submitted ∷ received (codes "x") 77 ∷ submitted ∷ []) (omega arith)

slot_filled :
    (dispatch_frame codec (codes "n") 99 shared).latest_job
    ≡ some (record { notify = job; extranonce1_hex = codes "aabbccdd" })
slot_filled = (dispatch_notify codec 110 [] 99 shared job refl).0

other_block : prev_changed none job ≡ true
unfolding prev_changed
other_block = refl

dispatch_frame_preempts_example : (dispatch_frame codec (codes "n") 99 shared).new_job ≡ true
dispatch_frame_preempts_example =
    dispatch_frame_preempts codec (codes "n") 99 shared
      (record { notify = job; extranonce1_hex = codes "aabbccdd" }) slot_filled other_block

reconnect-InRange_example :
    InRange (state_of (reconnect codec (no_answer ∷ no_answer ∷ answer ∷ []) reader))
reconnect-InRange_example =
    reconnect-InRange (no_answer ∷ no_answer ∷ answer ∷ []) codec reader
      (omega arith, omega arith, omega arith)

reconnect-Online_example : Online (reconnect codec (no_answer ∷ no_answer ∷ answer ∷ []) reader)
reconnect-Online_example =
    reconnect-Online (no_answer ∷ no_answer ∷ answer ∷ []) codec reader (omega arith) refl refl
