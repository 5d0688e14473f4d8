-- ===== src/GpuWatchdog/Streak.antt =====
-- src/gpu_watchdog.rs over any history of polls: what the carried state counts.
use csd_mining_pool_public.Prelude.{
  ℕ, suc, ◌-◌, ◌^◌, ◌≤◌, ◌<◌, min, ◌≡◌, ◌≢◌, refl, sym, ap, ◌∙◌, subst, ◌⊎◌, inl, inr, true, false,
  leb, Option, none, some, List, [], ◌∷◌, arith, if◌then◌else◌, saturating_add_u32, Bool-cases,
  leb→le,
}
use csd_mining_pool_public.GpuWatchdog.{
  GpuWatchdogCfg, GpuWatchdogAction, all_ok, recover, exit, gpu_watchdog_decision, GpuWatchdogView,
  GpuWatchdogState, default_state, ms_since, snapshot_from, Ticked, counted, stamped, stalled,
  perform, gpu_watchdog_tick,
}
use csd_mining_pool_public.GpuWatchdog.Escalation.{tick_stalled, decision_stalled, snap_of}
use csd_mining_pool_public.GpuWatchdog.Decision.{attempts, gpu_recover_iff}

module _ {S : Type 0} (view : GpuWatchdogView S) (cfg : GpuWatchdogCfg) where
  -- The state after the polls of a history, newest first: each is the loop's state and the time.
  abbrev pub state_after : List (S × ℕ) → GpuWatchdogState
  state_after [] = default_state
  state_after ((s, now_ms) ∷ earlier) =
      (gpu_watchdog_tick view cfg (state_after earlier) now_ms s).state

  -- The stalled samples at the end of a history.
  abbrev pub stalled_run : List (S × ℕ) → ℕ
  stalled_run [] = 0
  stalled_run ((s, now_ms) ∷ earlier) = if stalled view cfg s then suc (stalled_run earlier) else 0

  tick_idle :
      (st : GpuWatchdogState) (now_ms : ℕ) (s : S)
      → cfg.enabled ≡ true
      → stalled view cfg s ≡ false
      → gpu_watchdog_tick view cfg st now_ms s
        ≡ record { state = default_state; loop_state = s; action = all_ok }
  unfolding gpu_watchdog_tick
  tick_idle st now_ms s on h = simp (on, h)

  perform-streak :
      (a : GpuWatchdogAction) (st : GpuWatchdogState) (now_ms : ℕ) (s : S)
      → (perform view cfg a st now_ms s).state.floored_streak ≡ st.floored_streak
  unfolding perform stamped
  perform-streak all_ok st now_ms s = refl
  perform-streak recover st now_ms s = refl
  perform-streak exit st now_ms s = refl

  perform-action :
      (a : GpuWatchdogAction) (st : GpuWatchdogState) (now_ms : ℕ) (s : S)
      → (perform view cfg a st now_ms s).action ≡ a
  unfolding perform
  perform-action all_ok st now_ms s = refl
  perform-action recover st now_ms s = refl
  perform-action exit st now_ms s = refl

  -- The carried streak is the number of stalled samples at the end of the history, as a `u32`.
  state_after-streak :
      (h : List (S × ℕ))
      → cfg.enabled ≡ true
      → (state_after h).floored_streak ≡ min (stalled_run h) (2 ^ 32 - 1)
  unfolding counted
  state_after-streak [] on = omega arith
  state_after-streak ((s, now_ms) ∷ earlier) on = elim (Bool-cases (stalled view cfg s)) [
    | inr idle ↦
        ap (λ (k : Ticked S). k.state.floored_streak)
          (tick_idle (state_after earlier) now_ms s on idle)
        ∙ rw idle (omega arith)
    | inl stall ↦
        ap (λ (k : Ticked S). k.state.floored_streak)
          (tick_stalled view cfg (state_after earlier) now_ms s on stall)
        ∙ perform-streak
            (gpu_watchdog_decision (snap_of view cfg (state_after earlier) now_ms s) cfg)
            (counted (state_after earlier)) now_ms s
        ∙ rw stall (omega (arith, state_after-streak earlier on))
  ]

  -- The budget of a stall, and that no attempt is stamped before the first.
  record Budget (st : GpuWatchdogState) : Type 0 where
    within : st.recoveries_done ≤ cfg.max_recoveries
    unstamped : attempts st.recovery_at_ms st.recoveries_done ≡ st.recoveries_done

  perform-Budget :
      (a : GpuWatchdogAction) (st : GpuWatchdogState) (now_ms : ℕ) (s : S)
      → (a ≡ all_ok) ⊎ (a ≡ exit) ⊎ (st.recoveries_done < cfg.max_recoveries)
      → Budget st
      → Budget ((perform view cfg a st now_ms s).state)
  unfolding perform stamped
  perform-Budget all_ok st now_ms s c b = b
  perform-Budget exit st now_ms s c b = b
  perform-Budget recover st now_ms s (inl e) b = absurd cc
  perform-Budget recover st now_ms s (inr (inl e)) b = absurd cc
  perform-Budget recover st now_ms s (inr (inr left)) b = record {
    within = omega arith;
    unstamped = refl;
  }

  attempts-ms_since :
      (o : Option ℕ) (done now_ms : ℕ) → attempts (ms_since o now_ms) done ≡ attempts o done
  attempts-ms_since none done now_ms = refl
  attempts-ms_since (some t) done now_ms = refl

  recover_left :
      (a : GpuWatchdogAction) (st : GpuWatchdogState) (now_ms : ℕ) (s : S)
      → gpu_watchdog_decision (snap_of view cfg st now_ms s) cfg ≡ a
      → Budget st
      → (a ≡ all_ok) ⊎ (a ≡ exit) ⊎ (st.recoveries_done < cfg.max_recoveries)
  unfolding snapshot_from
  recover_left all_ok st now_ms s e b = inl refl
  recover_left exit st now_ms s e b = inr (inl refl)
  recover_left recover st now_ms s e b =
      let (sure, over, left) = (gpu_recover_iff (snap_of view cfg st now_ms s) cfg).0 e in
      inr (
        inr (
          omega (
            arith,
            left,
            attempts-ms_since st.recovery_at_ms st.recoveries_done now_ms,
            b.unstamped,
          )))

  state_after-Budget : (h : List (S × ℕ)) → cfg.enabled ≡ true → Budget (state_after h)
  unfolding counted
  state_after-Budget [] on = record { within = omega arith; unstamped = refl }
  state_after-Budget ((s, now_ms) ∷ earlier) on =
      let st = state_after earlier in
      let b = state_after-Budget earlier on in
      elim (Bool-cases (stalled view cfg s)) [
        | inr idle ↦
            subst Budget (sym (ap (λ (k : Ticked S). k.state) (tick_idle st now_ms s on idle)))
              (record { within = omega arith; unstamped = refl })
        | inl stall ↦
            subst Budget
              (sym (ap (λ (k : Ticked S). k.state) (tick_stalled view cfg st now_ms s on stall)))
              (perform-Budget (gpu_watchdog_decision (snap_of view cfg st now_ms s) cfg)
                (counted st) now_ms s
                (recover_left (gpu_watchdog_decision (snap_of view cfg st now_ms s) cfg) st now_ms s
                  refl b)
                (record { within = b.within; unstamped = b.unstamped }))
      ]

  quiet_dwell :
      (st : GpuWatchdogState) (now_ms : ℕ) (s : S)
      → cfg.enabled ≡ true
      → stalled view cfg s ≡ true
      → leb cfg.dwell_samples (saturating_add_u32 st.floored_streak 1) ≡ false
      → (gpu_watchdog_tick view cfg st now_ms s).action ≡ all_ok
  quiet_dwell st now_ms s on stall short =
      ap (λ (k : Ticked S). k.action) (tick_stalled view cfg st now_ms s on stall)
      ∙ perform-action (gpu_watchdog_decision (snap_of view cfg st now_ms s) cfg) (counted st)
          now_ms s
      ∙ decision_stalled view cfg st now_ms s on stall
      ∙ rw short refl

-- After any history of polls of an enabled watchdog, the recoveries counted for a stall are at
-- most the configured number.
pub recoveries_bounded :
    {S : Type 0} (view : GpuWatchdogView S) (cfg : GpuWatchdogCfg) (history : List (S × ℕ))
    → cfg.enabled ≡ true
    → (state_after view cfg history).recoveries_done ≤ cfg.max_recoveries
recoveries_bounded view cfg history on = (state_after-Budget view cfg history on).within

-- An enabled watchdog acts on a poll, after any history, only if the sample is stalled and ends a
-- run of at least the dwell of stalled samples.
pub acts_after_dwell :
    {S : Type 0} (view : GpuWatchdogView S) (cfg : GpuWatchdogCfg) (history : List (S × ℕ))
    (now_ms : ℕ) (s : S)
    → cfg.enabled ≡ true
    → (gpu_watchdog_tick view cfg (state_after view cfg history) now_ms s).action ≢ all_ok
    → (stalled view cfg s ≡ true) × (cfg.dwell_samples ≤ suc (stalled_run view cfg history))
acts_after_dwell view cfg history now_ms s on acts =
    let st = state_after view cfg history in
    elim (Bool-cases (stalled view cfg s)) [
      | inr idle ↦
          absurd (acts (ap (λ (k : Ticked _). k.action) (tick_idle view cfg st now_ms s on idle)))
      | inl stall ↦
          elim (Bool-cases (leb cfg.dwell_samples (saturating_add_u32 st.floored_streak 1))) [
            | inr short ↦ absurd (acts (quiet_dwell view cfg st now_ms s on stall short))
            | inl long ↦ (
              stall,
              omega (
                arith,
                leb→le cfg.dwell_samples (saturating_add_u32 st.floored_streak 1) long,
                state_after-streak view cfg history on,
              ),
            )
          ]
    ]
