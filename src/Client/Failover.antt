-- ===== src/Client/Failover.antt =====
-- A failover from src/stratum/watchdog.rs through the reconnect of src/stratum/client.rs.
use csd_mining_pool_public.Prelude.{
  ℕ, ◌≤◌, ◌<◌, ◌≡◌, ◌≢◌, refl, ap, Bool, true, false, some, length, arith,
}
use csd_mining_pool_public.Endpoint.{advance, maybe_failback}
use csd_mining_pool_public.Endpoint.Failback.{failover_undone}
use csd_mining_pool_public.Watchdog.{
  WatchdogCfg, WatchdogSnapshot, failover, default_cfg, watchdog_decision, watchdog_tick, act,
}
use csd_mining_pool_public.Watchdog.Decision.{failover_iff}
use csd_mining_pool_public.Client.{Shared}
use csd_mining_pool_public.Client.Reader.{
  ReaderState, Attempt, take_failover, client_watchdog, failback_ms,
}

-- What the watchdog reads of a session.
abbrev pub snapshot_of : Shared → WatchdogSnapshot
snapshot_of s = record {
  consecutive_unacked = s.stats.consecutive_unacked;
  last_new_job_ms = s.stats.last_new_job_ms;
  last_accept_ms = s.stats.last_accept_ms;
  last_reconnect_ms = s.stats.last_reconnect_ms;
}

tick-arms :
    (cfg : WatchdogCfg) (now_ms : ℕ) (s : Shared)
    → watchdog_decision (snapshot_of s) cfg now_ms ≡ some failover
    → watchdog_tick client_watchdog cfg now_ms (s, false)
      ≡ ((record s { force_failover = true }, true), true)
unfolding watchdog_tick client_watchdog
tick-arms cfg now_ms s h = ap (λ d. act client_watchdog d (s, false)) h

take-advances :
    (r : ReaderState)
    → r.shared.force_failover ≡ true
    → ((take_failover r).endpoints ≡ advance r.endpoints)
      × ((take_failover r).shared.force_failover ≡ false)
unfolding take_failover
take-advances r h = (rw h refl, rw h refl)

-- A failover decision shuts the socket and arms the flag, and the reader then advances the
-- endpoint list once and clears the flag.
pub watchdog_tick-take_failover :
    (cfg : WatchdogCfg) (now_ms : ℕ) (r : ReaderState)
    → watchdog_decision (snapshot_of r.shared) cfg now_ms ≡ some failover
    → let ticked = watchdog_tick client_watchdog cfg now_ms (r.shared, false) in
      let taken = take_failover (record r { shared = ticked.0.0 }) in
      (ticked.0.1 ≡ true)
      × (ticked.1 ≡ true)
      × (taken.endpoints ≡ advance r.endpoints)
      × (taken.shared.force_failover ≡ false)
watchdog_tick-take_failover cfg now_ms r h =
    let e = tick-arms cfg now_ms r.shared h in
    let (next, once) =
      take-advances
        (record r { shared = (watchdog_tick client_watchdog cfg now_ms (r.shared, false)).0.0 })
        (ap (λ (t : (Shared × Bool) × Bool). t.0.0.force_failover) e) in
    (
      ap (λ (t : (Shared × Bool) × Bool). t.0.1) e,
      ap (λ (t : (Shared × Bool) × Bool). t.1) e,
      next,
      once,
    )

-- Where the primary's failback clock runs and was last stamped no later than the last reconnect, a
-- failover of the default watchdog from the primary, in a list of two endpoints or more, is undone
-- by the failback check of a reconnect at or after that time.
pub watchdog_failover_undone :
    (now_ms : ℕ) (r : ReaderState) (a : Attempt)
    → watchdog_decision (snapshot_of r.shared) default_cfg now_ms ≡ some failover
    → 1 < length r.endpoints.all
    → r.endpoints.current ≡ 0
    → r.endpoints.last_failback_ms ≢ 0
    → r.endpoints.last_failback_ms ≤ r.shared.stats.last_reconnect_ms
    → now_ms ≤ a.failback_now_ms
    → ((advance r.endpoints).current ≡ 1)
      × ((maybe_failback (advance r.endpoints) a.failback_now_ms failback_ms).0.current ≡ 0)
      × ((maybe_failback (advance r.endpoints) a.failback_now_ms failback_ms).1 ≡ true)
unfolding default_cfg
watchdog_failover_undone now_ms r a h two at_primary runs before later =
    let (acked, fresh, accepted, old, since) =
      (failover_iff (snapshot_of r.shared) default_cfg now_ms).0 h in
    failover_undone r.endpoints a.failback_now_ms failback_ms two at_primary runs
      (omega (arith, since))
