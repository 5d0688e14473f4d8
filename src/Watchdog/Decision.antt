-- ===== src/Watchdog/Decision.antt =====
-- src/stratum/watchdog.rs: what the watchdog decides.
use csd_mining_pool_public.Prelude.{
  ℕ, ◌-◌, ◌≤◌, ◌<◌, ◌≡◌, ◌≢◌, ◌↔◌, ◌⊎◌, some, arith, as_millis_u64,
}
use csd_mining_pool_public.Watchdog.{
  WatchdogCfg, WatchdogSnapshot, force_reconnect, failover, watchdog_decision,
}

-- A fresh job: one has arrived, and it is at most `job_stale` old.
abbrev pub IsFresh : WatchdogSnapshot → WatchdogCfg → ℕ → Type 0
IsFresh snap cfg now =
    (snap.last_new_job_ms ≢ 0) × (now - snap.last_new_job_ms ≤ as_millis_u64 cfg.job_stale)

-- The watchdog fails over exactly when submits are being acked, a job is fresh, a share was once
-- accepted, and both the last accept and the last reconnect are at least the accept threshold old.
pub failover_iff :
    (snap : WatchdogSnapshot) (cfg : WatchdogCfg) (now : ℕ)
    → (watchdog_decision snap cfg now ≡ some failover) ↔ (
        (snap.consecutive_unacked < cfg.max_unacked)
        × IsFresh snap cfg now
        × (snap.last_accept_ms ≢ 0)
        × (as_millis_u64 cfg.accept_stale ≤ now - snap.last_accept_ms)
        × (as_millis_u64 cfg.accept_stale ≤ now - snap.last_reconnect_ms))
unfolding watchdog_decision
failover_iff snap cfg now = ground arith

-- The watchdog forces a reconnect exactly when enough submits in a row went without an ack, or a
-- job has arrived and the last new one is older than the threshold.
pub force_reconnect_iff :
    (snap : WatchdogSnapshot) (cfg : WatchdogCfg) (now : ℕ)
    → (watchdog_decision snap cfg now ≡ some force_reconnect) ↔ (
        (cfg.max_unacked ≤ snap.consecutive_unacked)
        ⊎ ((snap.last_new_job_ms ≢ 0) × (as_millis_u64 cfg.job_stale < now - snap.last_new_job_ms)))
unfolding watchdog_decision
force_reconnect_iff snap cfg now = ground arith
