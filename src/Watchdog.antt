-- ===== src/Watchdog.antt =====
-- src/stratum/watchdog.rs: the decision of the reliability watchdog. Clocks are Unix milliseconds
-- and handed in; durations are nanoseconds. The thread around it only repeats `watchdog_tick`.
pub mod Decision
use csd_mining_pool_public.Prelude.{
  ℕ, ◌+◌, ◌-◌, max, Bool, true, false, not, ◌&&◌, ◌||◌, Option, none, some, ltb, leb, ◌==◌,
  if◌then◌else◌, from_secs, as_millis_u64,
}

pub record WatchdogCfg : Type 0 where
  pub max_unacked : ℕ
  pub job_stale : ℕ
  pub accept_stale : ℕ
  pub poll : ℕ

unfoldable pub default_cfg : WatchdogCfg
default_cfg = record {
  max_unacked = 10;
  job_stale = from_secs 300;
  accept_stale = from_secs 1800;
  poll = from_secs 15;
}

pub record WatchdogSnapshot : Type 0 where
  pub consecutive_unacked : ℕ
  pub last_new_job_ms : ℕ
  pub last_accept_ms : ℕ
  pub last_reconnect_ms : ℕ

pub data WatchdogAction : Type 0 where
  force_reconnect failover : WatchdogAction

unfoldable pub job_is_stale : ℕ → ℕ → ℕ → Bool
job_is_stale last_new_job_ms now_ms threshold =
    ltb 0 last_new_job_ms && ltb (as_millis_u64 threshold) (now_ms - last_new_job_ms)

unfoldable pub accept_deadman : ℕ → ℕ → ℕ → ℕ → ℕ → Bool
accept_deadman last_accept_ms last_new_job_ms now_ms accept_threshold job_fresh_within =
    if last_accept_ms == 0
    then false
    else if last_new_job_ms == 0 || ltb (as_millis_u64 job_fresh_within) (now_ms - last_new_job_ms)
    then false
    else leb (as_millis_u64 accept_threshold) (now_ms - last_accept_ms)

-- The later of the last accept and the last reconnect, once a share was accepted.
unfoldable pub accept_baseline : WatchdogSnapshot → ℕ
accept_baseline snap =
    if snap.last_accept_ms == 0 then 0 else max snap.last_accept_ms snap.last_reconnect_ms

unfoldable pub watchdog_decision : WatchdogSnapshot → WatchdogCfg → ℕ → Option WatchdogAction
unfolding job_is_stale accept_deadman accept_baseline
watchdog_decision snap cfg now_ms =
    if leb cfg.max_unacked snap.consecutive_unacked
    then some force_reconnect
    else if job_is_stale snap.last_new_job_ms now_ms cfg.job_stale
    then some force_reconnect
    else if accept_deadman (accept_baseline snap) snap.last_new_job_ms now_ms cfg.accept_stale
        cfg.job_stale
    then some failover
    else none

-- What the watchdog thread sees of the session, and may ask of it.
pub record WatchdogView (S : Type 0) : Type 0 where
  pub snapshot : S → WatchdogSnapshot
  pub request_reconnect : S → S
  pub request_failover : S → S

module _ {S : Type 0} (view : WatchdogView S) where
  pub act : Option WatchdogAction → S → S × Bool
  act (some force_reconnect) s = (view.request_reconnect s, true)
  act (some failover) s = (view.request_failover s, true)
  act none s = (s, false)

  -- One evaluation: the new session, and whether a reconnect was triggered.
  unfoldable pub watchdog_tick : WatchdogCfg → ℕ → S → S × Bool
  unfolding act
  watchdog_tick cfg now_ms s = act (watchdog_decision (view.snapshot s) cfg now_ms) s
