-- ===== src/GpuWatchdog/Decision.antt =====
-- src/gpu_watchdog.rs, one sample: when the decision is to act.
use csd_mining_pool_public.Prelude.{
  ℕ, ◌≤◌, ◌<◌, ◌≡◌, refl, ◌↔◌, Bool, true, false, leb, ◌≢◌, ◌&&◌, Option, none, some, arith,
  if◌then◌else◌, as_millis_u64, saturating_add_u32,
}
use csd_mining_pool_public.GpuWatchdog.{
  GpuWatchdogCfg, GpuWatchdogSnapshot, all_ok, recover, exit, is_floored, confirmed_stall,
  gpu_watchdog_decision,
}

-- An equation with a conditional whose other branch cannot hold.
if_iff {ℓ} :
    {A : Type ℓ} {P Q : Type 0} (b : Bool) {x y c : A}
    → y ≢ c
    → ((x ≡ c) ↔ (P × Q))
    → ((if b then x else y) ≡ c) ↔ ((b ≡ true) × P × Q)
if_iff true ne i = ((λ e. let (p, q) = i.0 e in (refl, p, q)), (λ t. i.1 (t.1, t.2)))
if_iff false ne i = ((λ e. absurd (ne e)), (λ t. absurd cc))

-- The window after the last attempt of this stall, if there was one, is over.
abbrev pub due : Option ℕ → GpuWatchdogCfg → Bool
due none cfg = true
due (some ms) cfg = leb (as_millis_u64 cfg.recover_window) ms

-- The attempts of this stall.
abbrev pub attempts : Option ℕ → ℕ → ℕ
attempts none done = 0
attempts (some ms) done = done

pub confirmed_stall_cases :
    (o : Option ℕ) (done : ℕ) (cfg : GpuWatchdogCfg)
    → ((confirmed_stall o done cfg ≡ recover)
        ↔ ((due o cfg ≡ true) × (attempts o done < cfg.max_recoveries)))
      × ((confirmed_stall o done cfg ≡ exit)
          ↔ ((due o cfg ≡ true) × (cfg.max_recoveries ≤ attempts o done)))
unfolding confirmed_stall
confirmed_stall_cases none done cfg = (ground arith, ground arith)
confirmed_stall_cases (some ms) done cfg = (ground arith, ground arith)

-- A stall that the decision acts on: a floored GPU with work over a healthy link, for
-- `dwell_samples` samples with this one.
abbrev pub is_confirmed : GpuWatchdogSnapshot → GpuWatchdogCfg → Bool
is_confirmed snap cfg =
    (cfg.enabled && is_floored snap.gpu_ghs cfg.floor_ghs)
    && ((snap.jobs_flowing && snap.conn_healthy)
        && leb cfg.dwell_samples (saturating_add_u32 snap.floored_streak 1))

pub decision_confirmed :
    (snap : GpuWatchdogSnapshot) (cfg : GpuWatchdogCfg)
    → gpu_watchdog_decision snap cfg ≡ (
        if is_confirmed snap cfg
        then confirmed_stall snap.ms_since_recovery snap.recoveries_done cfg
        else all_ok)
unfolding gpu_watchdog_decision
decision_confirmed snap cfg = ground arith

-- The GPU watchdog decides to recover exactly for a confirmed stall that is past its window and
-- has recoveries left.
pub gpu_recover_iff :
    (snap : GpuWatchdogSnapshot) (cfg : GpuWatchdogCfg)
    → (gpu_watchdog_decision snap cfg ≡ recover) ↔ (
        (is_confirmed snap cfg ≡ true)
        × (due snap.ms_since_recovery cfg ≡ true)
        × (attempts snap.ms_since_recovery snap.recoveries_done < cfg.max_recoveries))
gpu_recover_iff snap cfg = rw (decision_confirmed snap cfg) (
    if_iff (is_confirmed snap cfg) (λ e. cc)
      (confirmed_stall_cases snap.ms_since_recovery snap.recoveries_done cfg).0)

-- The GPU watchdog decides to exit exactly for a confirmed stall that is past its window and has
-- no recovery left.
pub gpu_exit_iff :
    (snap : GpuWatchdogSnapshot) (cfg : GpuWatchdogCfg)
    → (gpu_watchdog_decision snap cfg ≡ exit) ↔ (
        (is_confirmed snap cfg ≡ true)
        × (due snap.ms_since_recovery cfg ≡ true)
        × (cfg.max_recoveries ≤ attempts snap.ms_since_recovery snap.recoveries_done))
gpu_exit_iff snap cfg = rw (decision_confirmed snap cfg) (
    if_iff (is_confirmed snap cfg) (λ e. cc)
      (confirmed_stall_cases snap.ms_since_recovery snap.recoveries_done cfg).1)
