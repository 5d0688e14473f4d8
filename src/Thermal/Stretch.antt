-- ===== src/Thermal/Stretch.antt =====
-- src/thermal.rs over many polls: the length of a pause and of a forced window.
use csd_mining_pool_public.Prelude.{
  ℕ, ◌+◌, ◌-◌, ◌^◌, ◌≤◌, ◌<◌, ◌≡◌, refl, sym, ap, ap₂, ◌∙◌, Bool, true, false, not, ◌&&◌, Option,
  none, some, leb, List, [], ◌∷◌, arith, from_secs, Bool-cases, inl, inr, leb→lt, ◌≢◌,
}
use csd_mining_pool_public.Prelude.Float.{F64}
use csd_mining_pool_public.Thermal.{
  ThermalCfg, ThermalState, running, paused, is_paused, Deadman, DeadmanOutcome, tick, tick_by,
  tick_closed, tick_forcing, thermal_decision, force_resume_window_secs, Poll,
  thermal_tick_with_deadman, polls, duration_max, saturating_add,
}

-- The time between the samples.
abbrev pub total_elapsed : List (Option F64 × ℕ) → ℕ
total_elapsed [] = 0
total_elapsed ((temp_c, elapsed) ∷ samples) = elapsed + total_elapsed samples

abbrev pub all_paused : List Poll → Bool
all_paused [] = true
all_paused (poll ∷ rest) = is_paused poll.applied && all_paused rest

abbrev pub all_running : List Poll → Bool
all_running [] = true
all_running (poll ∷ rest) = not (is_paused poll.applied) && all_running rest

-- A tick that pauses leaves no window, and less than the cap on the clock.
tick_by-paused :
    (p : ℕ) (o : Option ℕ) (state : ThermalState) (elapsed cap window : ℕ)
    → 0 < cap
    → is_paused (tick_by p o state elapsed cap window).1.apply_state ≡ true
    → ((tick_by p o state elapsed cap window).0.forcing_left ≡ none)
      × ((tick_by p o state elapsed cap window).0.paused_for < cap)
unfolding tick_by is_paused
tick_by-paused p (some left) state elapsed cap window pos h = ground arith
tick_by-paused p none running elapsed cap window pos h = absurd cc
tick_by-paused p none paused elapsed cap window pos h = ground arith

and_split : (a b : Bool) → (a && b) ≡ true → (a ≡ true) × (b ≡ true)
and_split a b h = ground arith

-- Without a window, a tick that pauses has put the time on the clock, which is below the cap.
tick_closed-paused :
    (state : ThermalState) (p elapsed cap window : ℕ)
    → cap ≤ duration_max
    → is_paused (tick_closed p state elapsed cap window).1.apply_state ≡ true
    → ((tick_closed p state elapsed cap window).0
        ≡ record { paused_for = p + elapsed; forcing_left = none })
      × (p + elapsed < cap)
unfolding tick_closed is_paused
tick_closed-paused running p elapsed cap window fits h = absurd cc
tick_closed-paused paused p elapsed cap window fits h =
    elim (Bool-cases (leb cap (saturating_add p elapsed))) [
      | inl over ↦ absurd (over_opens over h)
      | inr under ↦
          let below : saturating_add p elapsed < cap =
            leb→lt cap (saturating_add p elapsed) under in
          let same : saturating_add p elapsed ≡ p + elapsed = omega arith in
          (
            rw under (ap (λ (t : ℕ). record { paused_for = t; forcing_left = none }) same),
            omega arith,
          )
    ]
  where
    over_opens :
        leb cap (saturating_add p elapsed) ≡ true
        → is_paused (tick_closed p paused elapsed cap window).1.apply_state ≢ true
    over_opens over = rw over (λ e. cc)

module _ (cfg : ThermalCfg) where
  poll-paused :
      (gate : Bool) (p : ℕ) (temp_c : Option F64) (elapsed : ℕ)
      → cfg.max_pause_secs < 2 ^ 64
      → let poll =
          thermal_tick_with_deadman gate
            (record { paused_for = p; forcing_left = none })
            temp_c
            cfg
            elapsed in
        is_paused poll.applied ≡ true
        → (poll.deadman ≡ record { paused_for = p + elapsed; forcing_left = none })
          × (p + elapsed < from_secs cfg.max_pause_secs)
  unfolding thermal_tick_with_deadman tick tick_by
  poll-paused gate p temp_c elapsed fits h =
      tick_closed-paused (thermal_decision gate temp_c cfg) p elapsed (from_secs cfg.max_pause_secs)
        (from_secs force_resume_window_secs) (omega arith) h

  -- After a pause under the cap, further pauses add up below it.
  all_paused-polls :
      (samples : List (Option F64 × ℕ)) (gate : Bool) (p : ℕ)
      → cfg.max_pause_secs < 2 ^ 64
      → p < from_secs cfg.max_pause_secs
      → all_paused (polls cfg gate (record { paused_for = p; forcing_left = none }) samples) ≡ true
      → p + total_elapsed samples < from_secs cfg.max_pause_secs
  unfolding polls
  all_paused-polls [] gate p fits below h = omega arith
  all_paused-polls ((temp_c, elapsed) ∷ samples) gate p fits below h =
      let poll =
        thermal_tick_with_deadman gate (record { paused_for = p; forcing_left = none }) temp_c cfg
          elapsed in
      let (first, others) =
        and_split (is_paused poll.applied) (all_paused (polls cfg poll.gate poll.deadman samples))
          h in
      let (clock, under) = poll-paused gate p temp_c elapsed fits first in
      omega (
        arith,
        all_paused-polls samples poll.gate (p + elapsed) fits under
            (sym (ap (λ d. all_paused (polls cfg poll.gate d samples)) clock) ∙ others),
      )

-- However hot the card reads, once a poll has paused the gate, the polls after it that pause it
-- without a break take less than the configured cap in all, where the cap is positive and fits in
-- 64 bits.
pub paused_stretch_bounded :
    (cfg : ThermalCfg) (gate : Bool) (deadman : Deadman) (temp_c : Option F64) (elapsed : ℕ)
    (samples : List (Option F64 × ℕ))
    → cfg.max_pause_secs < 2 ^ 64
    → 0 < cfg.max_pause_secs
    → all_paused (polls cfg gate deadman ((temp_c, elapsed) ∷ samples)) ≡ true
    → total_elapsed samples < from_secs cfg.max_pause_secs
unfolding polls thermal_tick_with_deadman tick
paused_stretch_bounded cfg gate deadman temp_c elapsed samples fits pos h =
    let poll = thermal_tick_with_deadman gate deadman temp_c cfg elapsed in
    let (first, others) =
      and_split (is_paused poll.applied) (all_paused (polls cfg poll.gate poll.deadman samples))
        h in
    let (closed, under) =
      tick_by-paused deadman.paused_for deadman.forcing_left (thermal_decision gate temp_c cfg)
        elapsed (from_secs cfg.max_pause_secs) (from_secs force_resume_window_secs) (omega arith)
        first in
    let clock : poll.deadman
        ≡ record { paused_for = poll.deadman.paused_for; forcing_left = none } =
      ap (λ o. record { paused_for = poll.deadman.paused_for; forcing_left = o }) closed in
    omega (
      arith,
      all_paused-polls cfg samples poll.gate poll.deadman.paused_for fits under
          (sym (ap (λ d. all_paused (polls cfg poll.gate d samples)) clock) ∙ others),
    )

tick_forcing-open :
    (p left : ℕ) (state : ThermalState) (elapsed : ℕ)
    → elapsed < left
    → tick_forcing p left state elapsed ≡ (
      record { paused_for = p; forcing_left = some (left - elapsed) },
      record { apply_state = running; forced_open = false },
    )
unfolding tick_forcing
tick_forcing-open p left state elapsed h = ground arith

forced_opens :
    (p : ℕ) (o : Option ℕ) (state : ThermalState) (elapsed cap window : ℕ)
    → (tick_by p o state elapsed cap window).1.forced_open ≡ true
    → (tick_by p o state elapsed cap window).0
      ≡ record { paused_for = 0; forcing_left = some window }
unfolding tick_by
forced_opens p (some left) state elapsed cap window h = ground arith
forced_opens p none running elapsed cap window h = absurd cc
forced_opens p none paused elapsed cap window h = ground arith

-- A window that is open keeps the gate open for polls that end before it does.
all_running-polls :
    (cfg : ThermalCfg) (samples : List (Option F64 × ℕ)) (gate : Bool) (p left : ℕ)
    → total_elapsed samples < left
    → all_running (polls cfg gate (record { paused_for = p; forcing_left = some left }) samples)
      ≡ true
unfolding polls thermal_tick_with_deadman tick tick_by is_paused
all_running-polls cfg [] gate p left h = refl
all_running-polls cfg ((temp_c, elapsed) ∷ samples) gate p left h =
    let poll =
      thermal_tick_with_deadman gate (record { paused_for = p; forcing_left = some left }) temp_c
        cfg elapsed in
    let held = tick_forcing-open p left (thermal_decision gate temp_c cfg) elapsed (omega arith) in
    ap₂
      (λ (a : ThermalState) (d : Deadman).
        not (is_paused a) && all_running (polls cfg poll.gate d samples))
      (ap (λ (t : Deadman × DeadmanOutcome). t.1.apply_state) held)
      (ap (λ (t : Deadman × DeadmanOutcome). t.0) held)
    ∙ all_running-polls cfg samples poll.gate p (left - elapsed) (omega arith)

-- After the poll on which the dead-man opens a window, polls of less than 90 seconds in all keep
-- the gate open, whatever they read.
pub forced_window_runs :
    (cfg : ThermalCfg) (gate : Bool) (deadman : Deadman) (temp_c : Option F64) (elapsed : ℕ)
    (samples : List (Option F64 × ℕ))
    → (thermal_tick_with_deadman gate deadman temp_c cfg elapsed).forced_open ≡ true
    → total_elapsed samples < from_secs force_resume_window_secs
    → let poll = thermal_tick_with_deadman gate deadman temp_c cfg elapsed in
      all_running (polls cfg poll.gate poll.deadman samples) ≡ true
unfolding thermal_tick_with_deadman tick
forced_window_runs cfg gate deadman temp_c elapsed samples h short =
    let poll = thermal_tick_with_deadman gate deadman temp_c cfg elapsed in
    let opened =
      forced_opens deadman.paused_for deadman.forcing_left (thermal_decision gate temp_c cfg)
        elapsed (from_secs cfg.max_pause_secs) (from_secs force_resume_window_secs) h in
    ap (λ d. all_running (polls cfg poll.gate d samples)) opened
    ∙ all_running-polls cfg samples poll.gate 0 (from_secs force_resume_window_secs) short
