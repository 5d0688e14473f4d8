-- ===== src/Tests/Devices.antt =====
-- The GPU watchdog and the thermal throttle.
use csd_mining_pool_public.Prelude.{
  ℕ, suc, ◌≤◌, ◌<◌, ◌≡◌, refl, true, false, Option, none, some, List, [], ◌∷◌, arith, from_secs,
}
use csd_mining_pool_public.Prelude.Float.{F64, flt, of_nat}
use csd_mining_pool_public.GpuWatchdog.{
  GpuWatchdogCfg, GpuWatchdogSnapshot, recover, is_floored, confirmed_stall, gpu_watchdog_decision,
  GpuWatchdogView, default_state, snapshot_from, counted, stalled, perform, gpu_watchdog_tick,
  watch,
}
use csd_mining_pool_public.GpuWatchdog.Streak.{state_after, stalled_run, acts_after_dwell}
use csd_mining_pool_public.GpuWatchdog.Escalation.{exits, watch_escalates}
use csd_mining_pool_public.Thermal.{
  ThermalCfg, is_paused, known, hysteresis, on_sample, thermal_decision, default_hysteresis_c,
  default_deadman, tick_closed, tick_by, tick, apply, thermal_tick_with_deadman, polls,
}
use csd_mining_pool_public.Thermal.Stretch.{
  total_elapsed, all_paused, all_running, paused_stretch_bounded, forced_window_runs,
}

abbrev gpu_cfg : GpuWatchdogCfg
gpu_cfg = record {
  enabled = true;
  floor_ghs = of_nat 1;
  dwell_samples = 2;
  recover_window = from_secs 1;
  max_recoveries = 1;
  poll = from_secs 1;
}

-- A GPU whose rate is its state; a rebuild never helps.
abbrev view : GpuWatchdogView ℕ
view = record {
  gpu_ghs = λ s. of_nat 0;
  jobs_flowing = λ s. true;
  conn_healthy = λ s. true;
  recover_gpu = λ s. (suc s, false);
  escalate_exit = λ s. s;
}

hung : (s : ℕ) → stalled view gpu_cfg s ≡ true
unfolding stalled is_floored of_nat
hung s = refl

watch_escalates_example :
    exits (watch view gpu_cfg (λ now_ms s. s) default_state 0 (1000 ∷ 2000 ∷ 3500 ∷ 4500 ∷ []))
    ≡ true
watch_escalates_example =
    watch_escalates view gpu_cfg (λ now_ms s. s) 0 (1000 ∷ 2000 ∷ 3500 ∷ 4500 ∷ []) refl
      (omega arith) (omega arith) hung
      (omega arith, (omega arith, (omega arith, (omega arith, tt)))) (omega arith)

second_recovers :
    (gpu_watchdog_tick view gpu_cfg (state_after view gpu_cfg ((0, 1000) ∷ [])) 2000 0).action
    ≡ recover
unfolding gpu_watchdog_tick stalled is_floored perform counted snapshot_from gpu_watchdog_decision
    confirmed_stall of_nat
second_recovers = refl

acts_after_dwell_example :
    (stalled view gpu_cfg 0 ≡ true) × (2 ≤ suc (stalled_run view gpu_cfg ((0, 1000) ∷ [])))
acts_after_dwell_example =
    acts_after_dwell view gpu_cfg ((0, 1000) ∷ []) 2000 0 refl (λ e. cc (second_recovers, e))

abbrev stall : GpuWatchdogSnapshot
stall = record {
  gpu_ghs = of_nat 0;
  floored_streak = 1;
  jobs_flowing = true;
  conn_healthy = true;
  recoveries_done = 0;
  ms_since_recovery = none;
}

abbrev thermal_cfg : ThermalCfg
thermal_cfg = record {
  enabled = true;
  limit_c = of_nat 83;
  resume_c = of_nat 78;
  max_pause_secs = 600;
}

-- Exact where it is used: 70.0 - 5.0.
abbrev sub : F64 → F64 → F64
sub a b = of_nat 65

sub_below : flt (sub (of_nat 70) default_hysteresis_c) (of_nat 70) ≡ true
unfolding of_nat
sub_below = refl

-- A card that reads 90 degrees at every poll.
abbrev hot : List (Option F64 × ℕ)
hot = (some (of_nat 90), from_secs 300) ∷ (some (of_nat 90), from_secs 299) ∷ []

stays_paused :
    all_paused (polls thermal_cfg false default_deadman ((some (of_nat 90), from_secs 0) ∷ hot))
    ≡ true
unfolding polls thermal_tick_with_deadman thermal_decision known on_sample hysteresis tick tick_by
    tick_closed apply is_paused of_nat
stays_paused = refl

paused_stretch_bounded_example : total_elapsed hot < from_secs 600
paused_stretch_bounded_example =
    paused_stretch_bounded thermal_cfg false default_deadman (some (of_nat 90)) (from_secs 0) hot
      (omega arith) (omega arith) stays_paused

opens :
    (thermal_tick_with_deadman true default_deadman
      (some (of_nat 90))
      thermal_cfg
      (from_secs 600)).forced_open
    ≡ true
unfolding thermal_tick_with_deadman thermal_decision known on_sample hysteresis tick tick_by
    tick_closed apply of_nat
opens = refl

abbrev next_minute : List (Option F64 × ℕ)
next_minute = (some (of_nat 90), from_secs 30) ∷ (some (of_nat 90), from_secs 30) ∷ []

forced_window_runs_example :
    let poll =
      thermal_tick_with_deadman true default_deadman
        (some (of_nat 90))
        thermal_cfg
        (from_secs 600) in
    all_running (polls thermal_cfg poll.gate poll.deadman next_minute) ≡ true
forced_window_runs_example =
    forced_window_runs thermal_cfg true default_deadman (some (of_nat 90)) (from_secs 600)
      next_minute opens (omega arith)
