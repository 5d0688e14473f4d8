-- ===== src/Mining/Stall.antt =====
-- src/stratum/loop_stratum.rs and src/gpu_watchdog.rs together: the GPU watchdog over the loop.
use csd_mining_pool_public.Prelude.{
  ℕ, suc, ◌+◌, ◌-◌, ◌^◌, ◌≤◌, ◌<◌, ◌≡◌, ◌≢◌, refl, ap, ◌∙◌, ◌⊎◌, inl, inr, Bool, true, false, ◌&&◌,
  Option, none, some, List, length, arith, ltb, ◌==◌, if◌then◌else◌, as_millis_u64, Bool-cases,
}
use csd_mining_pool_public.Prelude.Float.{F64, inf, of_nat}
use csd_mining_pool_public.GpuWatchdog.{
  GpuWatchdogCfg, all_ok, default_state, is_floored, stalled, gpu_watchdog_tick, watch,
}
use csd_mining_pool_public.GpuWatchdog.Streak.{state_after, stalled_run, acts_after_dwell}
use csd_mining_pool_public.GpuWatchdog.Escalation.{Spaced, exits, Hung, exits-Hung}
use csd_mining_pool_public.Mining.View.{
  GpuHashrateSample, LoopState, view_ghs, jobs_flowing_from_health, conn_healthy_from_health,
  loop_gpu_view,
}

-- The last job is known, and at most two minutes old.
abbrev pub Fresh : Option ℕ → Type 0
Fresh none = ⊥
Fresh (some age) = age ≤ 120

Fresh-jobs_flowing_from_health : (o : Option ℕ) → jobs_flowing_from_health o ≡ true → Fresh o
unfolding jobs_flowing_from_health
Fresh-jobs_flowing_from_health none h = absurd cc
Fresh-jobs_flowing_from_health (some age) h = ground arith

split_stalled :
    (a p j k : Bool)
    → (a && ((if p then false else j) && (if p then false else k))) ≡ true
    → (a ≡ true) × (p ≡ false) × (j ≡ true)
split_stalled a p j k h = ground arith

-- When a reading counts as floored.
ghs_floored :
    (stale : ℕ) (sample : GpuHashrateSample) (now_ms : ℕ) (floor : F64)
    → is_floored inf floor ≡ false
    → is_floored (view_ghs stale sample now_ms) floor ≡ true
    → (sample.at_ms ≢ 0) × ((sample.at_ms + stale < now_ms) ⊎ (is_floored sample.ghs floor ≡ true))
unfolding view_ghs
ghs_floored stale sample now_ms floor healthy h = elim (Bool-cases (sample.at_ms == 0)) [
  | inl zero_ms ↦
      absurd
        (let infinite : is_floored inf floor ≡ true = rw zero_ms at h in cc (infinite, healthy))
  | inr some_ms ↦ elim (Bool-cases (ltb stale (now_ms - sample.at_ms))) [
    | inl late ↦ (λ e. ground arith, inl (ground arith))
    | inr soon ↦ (λ e. ground arith, inr (rw (some_ms, soon) at h))
  ]
]

-- After any history, the enabled watchdog of the loop acts on a poll only if the thermal gate is
-- open, a job came in the last two minutes, the sample has been stamped, and either its stamp is
-- older than the staleness limit or the published rate is at the floor, where an infinite rate is
-- above the floor; and the poll ends a run of at least the dwell of stalled samples.
pub loop_acts_only :
    {B : Type 0} (rebuild : B → B × Bool) (stale : ℕ) (exits_really : Bool) (cfg : GpuWatchdogCfg)
    (history : List (LoopState B × ℕ)) (now_ms : ℕ) (s : LoopState B)
    → cfg.enabled ≡ true
    → is_floored inf cfg.floor_ghs ≡ false
    → (gpu_watchdog_tick
        (loop_gpu_view rebuild stale exits_really)
        cfg
        (state_after (loop_gpu_view rebuild stale exits_really) cfg history)
        now_ms
        s).action
      ≢ all_ok
    → (s.paused ≡ false)
      × Fresh s.job_age_s
      × (s.sample.at_ms ≢ 0)
      × ((s.sample.at_ms + stale < s.now_ms) ⊎ (is_floored s.sample.ghs cfg.floor_ghs ≡ true))
      × (cfg.dwell_samples
          ≤ suc (stalled_run (loop_gpu_view rebuild stale exits_really) cfg history))
unfolding loop_gpu_view stalled
loop_acts_only rebuild stale exits_really cfg history now_ms s on healthy acts =
    let (stall, long) =
      acts_after_dwell (loop_gpu_view rebuild stale exits_really) cfg history now_ms s on acts in
    let (low, open_gate, flowing) =
      split_stalled (is_floored (view_ghs stale s.sample s.now_ms) cfg.floor_ghs) s.paused
        (jobs_flowing_from_health s.job_age_s) (conn_healthy_from_health s.job_age_s) stall in
    let (ran, why) = ghs_floored stale s.sample s.now_ms cfg.floor_ghs healthy low in
    (open_gate, Fresh-jobs_flowing_from_health s.job_age_s flowing, ran, why, long)

-- The loop is stuck inside a launch: its sample stays as it was, while the clock goes on, fresh jobs
-- arrive and the thermal gate is open.
pub record Wedged {B : Type 0} (sample : GpuHashrateSample)
    (between : ℕ → LoopState B → LoopState B) : Type 0 where
  pub frozen : (t : ℕ) (u : LoopState B) → u.sample ≡ sample → (between t u).sample ≡ sample
  pub clock : (t : ℕ) (u : LoopState B) → (between t u).now_ms ≡ t
  pub open_gate : (t : ℕ) (u : LoopState B) → (between t u).paused ≡ false
  pub flowing : (t : ℕ) (u : LoopState B) → jobs_flowing_from_health (between t u).job_age_s ≡ true

-- What the watchdog sees of such a loop.
record Silent {B : Type 0} (sample : GpuHashrateSample) (stale : ℕ) (u : LoopState B) : Type 0 where
  same : u.sample ≡ sample
  late : sample.at_ms + stale < u.now_ms
  unpaused : u.paused ≡ false
  flows : jobs_flowing_from_health u.job_age_s ≡ true

late_ghs :
    (stale : ℕ) (sample : GpuHashrateSample) (now_ms : ℕ)
    → sample.at_ms ≢ 0
    → sample.at_ms + stale < now_ms
    → view_ghs stale sample now_ms ≡ of_nat 0
unfolding view_ghs
late_ghs stale sample now_ms ran late = ground arith

join_stalled :
    (a p j : Bool)
    → a ≡ true
    → p ≡ false
    → j ≡ true
    → (a && ((if p then false else j) && (if p then false else j))) ≡ true
join_stalled a p j h k l = ground arith

Silent-stalled :
    {B : Type 0} (rebuild : B → B × Bool) (stale : ℕ) (exits_really : Bool) (cfg : GpuWatchdogCfg)
    (sample : GpuHashrateSample) (u : LoopState B)
    → is_floored (of_nat 0) cfg.floor_ghs ≡ true
    → sample.at_ms ≢ 0
    → Silent sample stale u
    → stalled (loop_gpu_view rebuild stale exits_really) cfg u ≡ true
unfolding loop_gpu_view stalled conn_healthy_from_health
Silent-stalled rebuild stale exits_really cfg sample u floor ran q =
    join_stalled (is_floored (view_ghs stale u.sample u.now_ms) cfg.floor_ghs) u.paused
      (jobs_flowing_from_health u.job_age_s)
      (ap (λ g. is_floored (view_ghs stale g u.now_ms) cfg.floor_ghs) q.same
        ∙ ap (λ g. is_floored g cfg.floor_ghs) (late_ghs stale sample u.now_ms ran q.late)
        ∙ floor)
      q.unpaused q.flows

Wedged-Hung :
    {B : Type 0} (rebuild : B → B × Bool) (stale : ℕ) (exits_really : Bool) (cfg : GpuWatchdogCfg)
    (sample : GpuHashrateSample) (between : ℕ → LoopState B → LoopState B)
    → is_floored (of_nat 0) cfg.floor_ghs ≡ true
    → sample.at_ms ≢ 0
    → Wedged sample between
    → Hung
        (loop_gpu_view rebuild stale exits_really)
        cfg
        (Silent sample stale)
        (sample.at_ms + stale + 1)
        between
unfolding loop_gpu_view
Wedged-Hung rebuild stale exits_really cfg sample between floor ran w = record {
  stalls = λ u q.
      unfold loop_gpu_view in Silent-stalled rebuild stale exits_really cfg sample u floor ran q;
  between_keeps = λ t u after q. record {
    same = w.frozen t u q.same;
    late = rw (w.clock t u) (omega arith);
    unpaused = w.open_gate t u;
    flows = w.flowing t u;
  };
  recover_keeps =
      λ u q. record { same = q.same; late = q.late; unpaused = q.unpaused; flows = q.flows };
}

-- A loop that hangs inside a launch after its sample was stamped makes its enabled watchdog exit,
-- whatever the rebuilds answer: fresh jobs arrive with the thermal gate open, 0.0 is at the floor,
-- the settings are u32, the polls come after the sample has gone stale, at least a recovery window
-- apart, and outnumber the dwell and the recoveries together.
pub Wedged-exits :
    {B : Type 0} (rebuild : B → B × Bool) (stale : ℕ) (cfg : GpuWatchdogCfg)
    (between : ℕ → LoopState B → LoopState B) (s : LoopState B) (times : List ℕ)
    → cfg.enabled ≡ true
    → cfg.dwell_samples < 2 ^ 32
    → cfg.max_recoveries < 2 ^ 32
    → is_floored (of_nat 0) cfg.floor_ghs ≡ true
    → s.sample.at_ms ≢ 0
    → s.sample.at_ms + stale < s.now_ms
    → s.paused ≡ false
    → jobs_flowing_from_health s.job_age_s ≡ true
    → Wedged s.sample between
    → Spaced (as_millis_u64 cfg.recover_window) (s.sample.at_ms + stale + 1) times
    → cfg.dwell_samples + cfg.max_recoveries < length times
    → exits (watch (loop_gpu_view rebuild stale true) cfg between default_state s times) ≡ true
Wedged-exits rebuild stale cfg between s times on d m floor ran late unpaused flows w spaced long =
    exits-Hung (loop_gpu_view rebuild stale true) cfg times (cfg.dwell_samples + cfg.max_recoveries)
      (s.sample.at_ms + stale + 1) (s.sample.at_ms + stale + 1) (Silent s.sample stale) between
      default_state s on d m (Wedged-Hung rebuild stale true cfg s.sample between floor ran w)
      (record { same = refl; late = late; unpaused = unpaused; flows = flows }) (omega arith) refl
      spaced (omega arith) long
