-- ===== src/Thermal.antt =====
-- src/thermal.rs: the temperature limit with hysteresis, the dead-man that bounds a pause, and the
-- gate that the mining loop reads. A `Duration` is nanoseconds; the subtraction of two `f64` is the
-- parameter `sub`.
pub mod Hysteresis
pub mod Stretch
use csd_mining_pool_public.Prelude.{
  ℕ, suc, ◌+◌, ◌-◌, ◌*◌, ◌^◌, min, Bool, true, false, not, ◌&&◌, ◌||◌, Option, none, some, List, [],
  ◌∷◌, ltb, leb, ◌==◌, if◌then◌else◌, from_secs,
}
use csd_mining_pool_public.Prelude.Float.{F64, is_nan, flt, fle, fmax, of_nat}

abbrev pub default_max_pause_secs : ℕ
default_max_pause_secs = 600

abbrev pub force_resume_window_secs : ℕ
force_resume_window_secs = 90

abbrev pub default_hysteresis_c : F64
default_hysteresis_c = of_nat 5

pub record ThermalCfg : Type 0 where
  pub enabled : Bool
  pub limit_c : F64
  pub resume_c : F64
  pub max_pause_secs : ℕ

abbrev pub default_cfg : ThermalCfg
default_cfg = record {
  enabled = false;
  limit_c = of_nat 83;
  resume_c = of_nat 78;
  max_pause_secs = default_max_pause_secs;
}

pub data ThermalState : Type 0 where
  running : ThermalState
  paused : ThermalState

unfoldable pub is_paused : ThermalState → Bool
is_paused running = false
is_paused paused = true

-- A sample that can be read.
unfoldable pub known : Option F64 → Option F64
known none = none
known (some t) = if is_nan t then none else some t

unfoldable pub hysteresis : Bool → F64 → ThermalCfg → ThermalState
hysteresis currently_paused temp cfg =
    if currently_paused
    then if fle temp cfg.resume_c then running else paused
    else if flt cfg.limit_c temp
    then paused
    else running

-- The match on the sample.
unfoldable pub on_sample : Bool → Option F64 → ThermalCfg → ThermalState
unfolding hysteresis
on_sample currently_paused none cfg = running
on_sample currently_paused (some temp) cfg = hysteresis currently_paused temp cfg

unfoldable pub thermal_decision : Bool → Option F64 → ThermalCfg → ThermalState
unfolding on_sample known
thermal_decision currently_paused temp_c cfg =
    if not cfg.enabled then running else on_sample currently_paused (known temp_c) cfg

unfoldable pub or_default : Option ℕ → ℕ
or_default none = default_max_pause_secs
or_default (some secs) = secs

unfoldable pub resume_below : (F64 → F64 → F64) → F64 → Option F64 → F64
resume_below sub limit none = fmax (sub limit default_hysteresis_c) (of_nat 0)
resume_below sub limit (some r) =
    if flt r limit then r else fmax (sub limit default_hysteresis_c) (of_nat 0)

unfoldable pub build_thermal_cfg :
    (F64 → F64 → F64) → Option F64 → Option F64 → Option ℕ → ThermalCfg
unfolding or_default resume_below
build_thermal_cfg sub none resume_c max_pause_secs = default_cfg
build_thermal_cfg sub (some limit) resume_c max_pause_secs = record {
  enabled = true;
  limit_c = limit;
  resume_c = resume_below sub limit resume_c;
  max_pause_secs = or_default max_pause_secs;
}

pub record Deadman : Type 0 where
  pub paused_for : ℕ
  pub forcing_left : Option ℕ

abbrev pub default_deadman : Deadman
default_deadman = record { paused_for = 0; forcing_left = none }

pub record DeadmanOutcome : Type 0 where
  pub apply_state : ThermalState
  pub forced_open : Bool

-- `Duration::MAX` and `saturating_add`.
abbrev pub duration_max : ℕ
duration_max = 2 ^ 64 * 1_000_000_000 - 1

abbrev pub saturating_add : ℕ → ℕ → ℕ
saturating_add a b = min (a + b) duration_max

-- The tick without an open window.
unfoldable pub tick_closed : ℕ → ThermalState → ℕ → ℕ → ℕ → Deadman × DeadmanOutcome
tick_closed paused_for running elapsed cap window =
    (default_deadman, record { apply_state = running; forced_open = false })
tick_closed paused_for paused elapsed cap window =
    let total = saturating_add paused_for elapsed in
    if leb cap total
    then (
      record { paused_for = 0; forcing_left = some window },
      record { apply_state = running; forced_open = true },
    )
    else (
      record { paused_for = total; forcing_left = none },
      record { apply_state = paused; forced_open = false },
    )

-- The tick in a window that has `left` to go.
unfoldable pub tick_forcing : ℕ → ℕ → ThermalState → ℕ → Deadman × DeadmanOutcome
tick_forcing paused_for left state elapsed =
    let remaining = left - elapsed in
    if remaining == 0
    then (default_deadman, record { apply_state = state; forced_open = false })
    else (
      record { paused_for = paused_for; forcing_left = some remaining },
      record { apply_state = running; forced_open = false },
    )

unfoldable pub tick_by : ℕ → Option ℕ → ThermalState → ℕ → ℕ → ℕ → Deadman × DeadmanOutcome
unfolding tick_closed tick_forcing
tick_by paused_for (some left) state elapsed cap window = tick_forcing paused_for left state elapsed
tick_by paused_for none state elapsed cap window = tick_closed paused_for state elapsed cap window

-- `Deadman::tick`.
unfoldable pub tick : Deadman → ThermalState → ℕ → ℕ → ℕ → Deadman × DeadmanOutcome
unfolding tick_by
tick d state elapsed cap window = tick_by d.paused_for d.forcing_left state elapsed cap window

-- `ThermalGate::apply` on the gate's flag: the new flag, and whether it changed.
unfoldable pub apply : Bool → ThermalState → Bool × Bool
unfolding is_paused
apply gate state = (is_paused state, if gate then not (is_paused state) else is_paused state)

-- What a poll leaves and reports.
pub record Poll : Type 0 where
  pub gate : Bool
  pub deadman : Deadman
  pub applied : ThermalState
  pub changed : Bool
  pub forced_open : Bool

unfoldable pub thermal_tick : Bool → Option F64 → ThermalCfg → Bool × (ThermalState × Bool)
unfolding thermal_decision apply
thermal_tick gate temp_c cfg =
    let state = thermal_decision gate temp_c cfg in
    let (now, changed) = apply gate state in (now, (state, changed))

unfoldable pub thermal_tick_with_deadman : Bool → Deadman → Option F64 → ThermalCfg → ℕ → Poll
thermal_tick_with_deadman gate deadman temp_c cfg elapsed =
    let decision = thermal_decision gate temp_c cfg in
    let (next, outcome) =
      tick deadman decision elapsed (from_secs cfg.max_pause_secs)
        (from_secs force_resume_window_secs) in
    let (now, changed) = apply gate outcome.apply_state in
    record {
      gate = now;
      deadman = next;
      applied = outcome.apply_state;
      changed = changed;
      forced_open = outcome.forced_open;
    }

-- The poller over its samples, each with the time since the last one: its reports, in order.
unfoldable pub polls : ThermalCfg → Bool → Deadman → List (Option F64 × ℕ) → List Poll
polls cfg gate deadman [] = []
polls cfg gate deadman ((temp_c, elapsed) ∷ samples) =
    let poll = thermal_tick_with_deadman gate deadman temp_c cfg elapsed in
    poll ∷ polls cfg poll.gate poll.deadman samples
