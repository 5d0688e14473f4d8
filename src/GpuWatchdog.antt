-- ===== src/GpuWatchdog.antt =====
-- src/gpu_watchdog.rs: the decision about one sample of the GPU's hashrate, and the tick that
-- carries the state of a stall. Times are Unix milliseconds and a `Duration` is nanoseconds; the
-- loop's side of the watchdog is the interface `GpuWatchdogView` over a state `S` of its own.
pub mod Decision
pub mod Streak
pub mod Escalation
use csd_mining_pool_public.Prelude.{
  ℕ, suc, ◌+◌, ◌-◌, ◌*◌, ◌^◌, min, Bool, true, false, not, ◌&&◌, ◌||◌, Option, none, some, List, [],
  ◌∷◌, ltb, leb, ◌==◌, if◌then◌else◌, from_secs, as_millis_u64, saturating_add_u32,
}
use csd_mining_pool_public.Prelude.Int.{ℤ, pos}
use csd_mining_pool_public.Prelude.Float.{F64, num, is_nan, fle}

pub record GpuWatchdogCfg : Type 0 where
  pub enabled : Bool
  pub floor_ghs : F64
  pub dwell_samples : ℕ
  pub recover_window : ℕ
  pub max_recoveries : ℕ
  pub poll : ℕ

-- 0.001 is 0x10624dd2f1a9fc * 2 ^ -62 as an `f64`.
abbrev pub default_cfg : GpuWatchdogCfg
default_cfg = record {
  enabled = true;
  floor_ghs = num (pos (0x10624dd2f1a9fc * 2 ^ 1012));
  dwell_samples = 4;
  recover_window = from_secs 60;
  max_recoveries = 3;
  poll = from_secs 15;
}

pub record GpuWatchdogSnapshot : Type 0 where
  pub gpu_ghs : F64
  pub floored_streak : ℕ
  pub jobs_flowing : Bool
  pub conn_healthy : Bool
  pub recoveries_done : ℕ
  pub ms_since_recovery : Option ℕ

pub data GpuWatchdogAction : Type 0 where
  all_ok : GpuWatchdogAction
  recover : GpuWatchdogAction
  exit : GpuWatchdogAction

unfoldable pub is_floored : F64 → F64 → Bool
is_floored ghs floor_ghs = is_nan ghs || fle ghs floor_ghs

-- The match on `ms_since_recovery`, for a confirmed stall.
unfoldable pub confirmed_stall : Option ℕ → ℕ → GpuWatchdogCfg → GpuWatchdogAction
confirmed_stall (some ms) done cfg =
    if ltb ms (as_millis_u64 cfg.recover_window)
    then all_ok
    else if ltb done cfg.max_recoveries
    then recover
    else exit
confirmed_stall none done cfg = if cfg.max_recoveries == 0 then exit else recover

unfoldable pub gpu_watchdog_decision : GpuWatchdogSnapshot → GpuWatchdogCfg → GpuWatchdogAction
gpu_watchdog_decision snap cfg =
    if not cfg.enabled
      || not (is_floored snap.gpu_ghs cfg.floor_ghs)
      || not snap.jobs_flowing
      || not snap.conn_healthy
    then all_ok
    else if ltb (saturating_add_u32 snap.floored_streak 1) cfg.dwell_samples
    then all_ok
    else confirmed_stall snap.ms_since_recovery snap.recoveries_done cfg

-- The loop's readings, `recover`, which also says whether the rebuild succeeded, and the exit.
pub record GpuWatchdogView (S : Type 0) : Type 0 where
  pub gpu_ghs : S → F64
  pub jobs_flowing : S → Bool
  pub conn_healthy : S → Bool
  pub recover_gpu : S → S × Bool
  pub escalate_exit : S → S

pub record GpuWatchdogState : Type 0 where
  pub floored_streak : ℕ
  pub recoveries_done : ℕ
  pub recovery_at_ms : Option ℕ

abbrev pub default_state : GpuWatchdogState
default_state = record { floored_streak = 0; recoveries_done = 0; recovery_at_ms = none }

abbrev pub ms_since : Option ℕ → ℕ → Option ℕ
ms_since (some t) now_ms = some (now_ms - t)
ms_since none now_ms = none

unfoldable pub snapshot_from : F64 → Bool → Bool → GpuWatchdogState → ℕ → GpuWatchdogSnapshot
snapshot_from gpu_ghs jobs_flowing conn_healthy state now_ms = record {
  gpu_ghs = gpu_ghs;
  floored_streak = state.floored_streak;
  jobs_flowing = jobs_flowing;
  conn_healthy = conn_healthy;
  recoveries_done = state.recoveries_done;
  ms_since_recovery = ms_since state.recovery_at_ms now_ms;
}

-- The result of a tick: the carried state, the loop's state, and the action.
pub record Ticked (S : Type 0) : Type 0 where
  pub state : GpuWatchdogState
  pub loop_state : S
  pub action : GpuWatchdogAction

-- The streak with this sample.
unfoldable pub counted : GpuWatchdogState → GpuWatchdogState
counted state = record {
  floored_streak = saturating_add_u32 state.floored_streak 1;
  recoveries_done = state.recoveries_done;
  recovery_at_ms = state.recovery_at_ms;
}

-- The stamp of an attempt; the source writes the same fields whether the rebuild succeeded or not.
unfoldable pub stamped : GpuWatchdogState → ℕ → GpuWatchdogState
stamped state now_ms = record {
  floored_streak = state.floored_streak;
  recoveries_done = saturating_add_u32 state.recoveries_done 1;
  recovery_at_ms = some now_ms;
}

module _ {S : Type 0} (view : GpuWatchdogView S) (cfg : GpuWatchdogCfg) where
  -- A sample of a floored GPU with work over a healthy link.
  unfoldable pub stalled : S → Bool
  stalled s =
      is_floored (view.gpu_ghs s) cfg.floor_ghs && (view.jobs_flowing s && view.conn_healthy s)

  -- The final match of the tick.
  unfoldable pub perform : GpuWatchdogAction → GpuWatchdogState → ℕ → S → Ticked S
  unfolding stamped
  perform recover state now_ms s = record {
    state = stamped state now_ms;
    loop_state = (view.recover_gpu s).0;
    action = recover;
  }
  perform exit state now_ms s = record {
    state = state;
    loop_state = view.escalate_exit s;
    action = exit;
  }
  perform all_ok state now_ms s = record { state = state; loop_state = s; action = all_ok }

  unfoldable pub gpu_watchdog_tick : GpuWatchdogState → ℕ → S → Ticked S
  gpu_watchdog_tick state now_ms s =
      if not cfg.enabled
      then record { state = state; loop_state = s; action = all_ok }
      else if not (stalled s)
      then record { state = default_state; loop_state = s; action = all_ok }
      else let snap =
          snapshot_from (view.gpu_ghs s) (view.jobs_flowing s) (view.conn_healthy s) state now_ms in
        perform (gpu_watchdog_decision snap cfg) (counted state) now_ms s

  -- The watchdog thread on its polls, each with its time, oldest first: the actions it takes and
  -- the state that it ends in. The loop changes its own state between two polls by `between`.
  unfoldable pub watch : (ℕ → S → S) → GpuWatchdogState → S → List ℕ → List GpuWatchdogAction
  watch between state s [] = []
  watch between state s (now_ms ∷ times) =
      let ticked = gpu_watchdog_tick state now_ms (between now_ms s) in
      ticked.action ∷ watch between ticked.state ticked.loop_state times
