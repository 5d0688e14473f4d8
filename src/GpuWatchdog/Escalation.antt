-- ===== src/GpuWatchdog/Escalation.antt =====
-- src/gpu_watchdog.rs over many polls: a stall that goes on.
use csd_mining_pool_public.Prelude.{
  ℕ, ◌+◌, ◌-◌, ◌^◌, ◌≤◌, ◌<◌, ◌≡◌, refl, ap, ◌∙◌, inl, inr, Bool, true, false, leb, ltb, ◌&&◌,
  Option, none, some, List, [], ◌∷◌, length, arith, if◌then◌else◌, as_millis_u64,
  saturating_add_u32, Bool-cases, leb→le, leb→lt, ltb→lt, ltb→le,
}
use csd_mining_pool_public.GpuWatchdog.{
  GpuWatchdogCfg, GpuWatchdogSnapshot, GpuWatchdogAction, all_ok, recover, exit, is_floored,
  confirmed_stall, gpu_watchdog_decision, GpuWatchdogView, GpuWatchdogState, default_state,
  ms_since, snapshot_from, Ticked, counted, stamped, stalled, perform, gpu_watchdog_tick, watch,
}
use csd_mining_pool_public.GpuWatchdog.Decision.{
  due, attempts, confirmed_stall_cases, decision_confirmed,
}

-- Polls that are at least `gap` milliseconds apart, the first of them after `prev`.
abbrev pub Spaced : ℕ → ℕ → List ℕ → Type 0
Spaced gap prev [] = Unit
Spaced gap prev (t ∷ ts) = (prev + gap ≤ t) × Spaced gap t ts

-- The thread has asked for an exit.
abbrev pub exits : List GpuWatchdogAction → Bool
exits [] = false
exits (exit ∷ actions) = true
exits (a ∷ actions) = exits actions

-- No attempt yet, or the last one was not after `prev`.
abbrev pub ReadyAt : Option ℕ → ℕ → ℕ → Type 0
ReadyAt none done prev = done ≡ 0
ReadyAt (some t) done prev = t ≤ prev

ready_due :
    (o : Option ℕ) (done prev now_ms : ℕ) (cfg : GpuWatchdogCfg)
    → ReadyAt o done prev
    → prev + as_millis_u64 cfg.recover_window ≤ now_ms
    → (due (ms_since o now_ms) cfg ≡ true) × (attempts (ms_since o now_ms) done ≡ done)
ready_due none done prev now_ms cfg r h = (refl, omega arith)
ready_due (some t) done prev now_ms cfg r h = (ground arith, refl)

ready_later : (o : Option ℕ) (done prev t : ℕ) → ReadyAt o done prev → prev ≤ t → ReadyAt o done t
ready_later none done prev t r h = r
ready_later (some u) done prev t r h = omega arith

regroup : (a b c d e : Bool) → a ≡ true → (b && (c && d)) ≡ true → ((a && b) && ((c && d) && e)) ≡ e
regroup a b c d e p q = ground arith

module _ {S : Type 0} (view : GpuWatchdogView S) (cfg : GpuWatchdogCfg) where
  abbrev pub snap_of : GpuWatchdogState → ℕ → S → GpuWatchdogSnapshot
  snap_of st now_ms s =
      snapshot_from (view.gpu_ghs s) (view.jobs_flowing s) (view.conn_healthy s) st now_ms

  pub tick_stalled :
      (st : GpuWatchdogState) (now_ms : ℕ) (s : S)
      → cfg.enabled ≡ true
      → stalled view cfg s ≡ true
      → gpu_watchdog_tick view cfg st now_ms s
        ≡ perform view cfg (gpu_watchdog_decision (snap_of st now_ms s) cfg) (counted st) now_ms s
  unfolding gpu_watchdog_tick
  tick_stalled st now_ms s on h = simp (on, h)

  -- The decision on a sample of a stall.
  pub decision_stalled :
      (st : GpuWatchdogState) (now_ms : ℕ) (s : S)
      → cfg.enabled ≡ true
      → stalled view cfg s ≡ true
      → gpu_watchdog_decision (snap_of st now_ms s) cfg ≡ (
          if leb cfg.dwell_samples (saturating_add_u32 st.floored_streak 1)
          then confirmed_stall (ms_since st.recovery_at_ms now_ms) st.recoveries_done cfg
          else all_ok)
  unfolding snapshot_from stalled
  decision_stalled st now_ms s on h =
      decision_confirmed (snap_of st now_ms s) cfg
      ∙ ap
          (λ b.
            if b
            then confirmed_stall (ms_since st.recovery_at_ms now_ms) st.recoveries_done cfg
            else all_ok)
          (regroup cfg.enabled (is_floored (view.gpu_ghs s) cfg.floor_ghs) (view.jobs_flowing s)
            (view.conn_healthy s) (leb cfg.dwell_samples (saturating_add_u32 st.floored_streak 1))
            on h)

  -- One poll of a hung GPU, by what it does.
  data Polled (st : GpuWatchdogState) (now_ms : ℕ) (s : S) : Type 0 where
    dwelling :
        st.floored_streak + 1 < cfg.dwell_samples
        → gpu_watchdog_tick view cfg st now_ms s
          ≡ record { state = counted st; loop_state = s; action = all_ok }
        → Polled st now_ms s
    recovering :
        cfg.dwell_samples ≤ st.floored_streak + 1
        → st.recoveries_done < cfg.max_recoveries
        → gpu_watchdog_tick view cfg st now_ms s ≡ record {
          state = stamped (counted st) now_ms;
          loop_state = (view.recover_gpu s).0;
          action = recover;
        }
        → Polled st now_ms s
    exiting :
        gpu_watchdog_tick view cfg st now_ms s
          ≡ record { state = counted st; loop_state = view.escalate_exit s; action = exit }
        → Polled st now_ms s

  poll_cases :
      (st : GpuWatchdogState) (prev now_ms : ℕ) (s : S)
      → cfg.enabled ≡ true
      → cfg.dwell_samples < 2 ^ 32
      → stalled view cfg s ≡ true
      → ReadyAt st.recovery_at_ms st.recoveries_done prev
      → prev + as_millis_u64 cfg.recover_window ≤ now_ms
      → Polled st now_ms s
  unfolding perform
  poll_cases st prev now_ms s on fits h ready later =
      let o = ms_since st.recovery_at_ms now_ms in
      let (is_due, count) =
        ready_due st.recovery_at_ms st.recoveries_done prev now_ms cfg ready later in
      let (to_recover, to_exit) = confirmed_stall_cases o st.recoveries_done cfg in
      let tick = tick_stalled st now_ms s on h in
      let decision = decision_stalled st now_ms s on h in
      elim (Bool-cases (leb cfg.dwell_samples (saturating_add_u32 st.floored_streak 1))) [
        | inr short ↦
            dwelling
              (omega
                (arith, leb→lt cfg.dwell_samples (saturating_add_u32 st.floored_streak 1) short))
              (tick
                ∙ ap (λ a. perform view cfg a (counted st) now_ms s)
                    (decision
                      ∙ ap (λ b. if b then confirmed_stall o st.recoveries_done cfg else all_ok)
                          short))
        | inl long ↦
            let act : gpu_watchdog_decision (snap_of st now_ms s) cfg
                ≡ confirmed_stall o st.recoveries_done cfg =
              decision
              ∙ ap (λ b. if b then confirmed_stall o st.recoveries_done cfg else all_ok) long in
            elim (Bool-cases (ltb st.recoveries_done cfg.max_recoveries)) [
              | inl left ↦
                  recovering
                    (omega (
                      arith,
                      leb→le cfg.dwell_samples (saturating_add_u32 st.floored_streak 1) long,
                    ))
                    (ltb→lt st.recoveries_done cfg.max_recoveries left)
                    (tick
                      ∙ ap (λ a. perform view cfg a (counted st) now_ms s)
                          (act
                            ∙ to_recover.1 (
                              is_due,
                              omega (arith, ltb→lt st.recoveries_done cfg.max_recoveries left),
                            )))
              | inr spent ↦ exiting (
                  tick
                  ∙ ap (λ a. perform view cfg a (counted st) now_ms s)
                      (act
                        ∙ to_exit.1 (
                          is_due,
                          omega (arith, ltb→le st.recoveries_done cfg.max_recoveries spent),
                        )))
            ]
      ]

  -- A stall that goes on: from `low` on, `P` holds at every poll, whatever the loop and the
  -- rebuilds do in between, and its samples are stalled.
  pub record Hung (P : S → Type 0) (low : ℕ) (between : ℕ → S → S) : Type 0 where
    pub stalls : (u : S) → P u → stalled view cfg u ≡ true
    pub between_keeps : (t : ℕ) (u : S) → low ≤ t → P u → P (between t u)
    pub recover_keeps : (u : S) → P u → P (view.recover_gpu u).0

  pub exits-Hung :
      (times : List ℕ) (n prev low : ℕ) (P : S → Type 0) (between : ℕ → S → S)
      (st : GpuWatchdogState) (s : S)
      → cfg.enabled ≡ true
      → cfg.dwell_samples < 2 ^ 32
      → cfg.max_recoveries < 2 ^ 32
      → Hung P low between
      → P s
      → low ≤ prev
      → ReadyAt st.recovery_at_ms st.recoveries_done prev
      → Spaced (as_millis_u64 cfg.recover_window) prev times
      → (cfg.dwell_samples - st.floored_streak) + (cfg.max_recoveries - st.recoveries_done) ≤ n
      → n < length times
      → exits (watch view cfg between st s times) ≡ true
  unfolding watch counted stamped
  exits-Hung [] n prev low P between st s on d m hung p lows ready spaced le lt =
      absurd (omega arith)
  exits-Hung (t ∷ times) n prev low P between st s on d m hung p lows ready spaced le lt =
      let q = hung.between_keeps t s (omega (arith, spaced.0)) p in
      elim (poll_cases st prev t (between t s) on d (hung.stalls (between t s) q) ready spaced.0) [
        | dwelling short tick ↦
            ap
              (λ (k : Ticked S).
                exits (k.action ∷ watch view cfg between k.state k.loop_state times))
              tick
            ∙ exits-Hung times (n - 1) t low P between (counted st) (between t s) on d m hung q
                (omega (arith, spaced.0))
                (ready_later st.recovery_at_ms st.recoveries_done prev t ready
                  (omega (arith, spaced.0)))
                spaced.1 (omega arith) (omega arith)
        | recovering long left tick ↦
            ap
              (λ (k : Ticked S).
                exits (k.action ∷ watch view cfg between k.state k.loop_state times))
              tick
            ∙ exits-Hung times (n - 1) t low P between (stamped (counted st) t)
                (view.recover_gpu (between t s)).0 on d m hung (hung.recover_keeps (between t s) q)
                (omega (arith, spaced.0)) (omega arith) spaced.1 (omega arith) (omega arith)
        | exiting tick ↦
            ap
              (λ (k : Ticked S).
                exits (k.action ∷ watch view cfg between k.state k.loop_state times))
              tick
      ]

-- An enabled watchdog with settings of u32, whose readings are stalled at every poll, exits on
-- some poll, if the polls are at least a recovery window apart and outnumber the dwell and the
-- recoveries together.
pub watch_escalates :
    {S : Type 0} (view : GpuWatchdogView S) (cfg : GpuWatchdogCfg) (between : ℕ → S → S) (s : S)
    (times : List ℕ)
    → cfg.enabled ≡ true
    → cfg.dwell_samples < 2 ^ 32
    → cfg.max_recoveries < 2 ^ 32
    → ((u : S) → stalled view cfg u ≡ true)
    → Spaced (as_millis_u64 cfg.recover_window) 0 times
    → cfg.dwell_samples + cfg.max_recoveries < length times
    → exits (watch view cfg between default_state s times) ≡ true
watch_escalates view cfg between s times on d m hung spaced long =
    exits-Hung view cfg times (cfg.dwell_samples + cfg.max_recoveries) 0 0 (λ u. Unit {0}) between
      default_state s on d m
      (record { stalls = λ u p. hung u; between_keeps = λ t u l p. tt; recover_keeps = λ u p. tt })
      tt (omega arith) refl spaced (omega arith) long
