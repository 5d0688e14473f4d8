-- ===== src/Mining/Turn/Faults.antt =====
-- src/stratum/loop_stratum.rs: a device that faults, over many turns.
use csd_mining_pool_public.Prelude.{
  ℕ, ◌-◌, ◌^◌, ◌≤◌, ◌<◌, ◌≡◌, refl, ap, ap₂, ◌∙◌, ◌⊎◌, inl, inr, Bool, true, false, not, ◌&&◌,
  Option, none, some, List, [], ◌∷◌, arith, ltb, leb, ◌==◌, saturating_add_u64, Bool-cases, All,
  from_secs, leb→le,
}
use csd_mining_pool_public.Prelude.Float.{F64, flt, of_nat}
use csd_mining_pool_public.Prelude.Results.{ok, err}
use csd_mining_pool_public.Sha.{Sha2}
use csd_mining_pool_public.Partition.{Share, partition_nonce_range}
use csd_mining_pool_public.Launch.{Gated, hash_mismatch, above_target, submit, gate, launch_header}
use csd_mining_pool_public.Mining.Source.{LoopWork}
use csd_mining_pool_public.Mining.View.{GpuHashrateSample, publish}
use csd_mining_pool_public.Mining.Turn.{
  WinSource, pick_win, win_nonce, win_hash, RateOps, gpu_rate, Turned, roll, on_gated, on_exhausted,
  settle, cpu_winner, workers, Surroundings, gpu_outcome, count_cpu, finish_turn, turn, turns,
}
use csd_mining_pool_public.Mining.Sweeps.{
  Outcome, Vars, Readings, absorb, clean_sweep, faulted_sweep,
}

unfoldable pub is_fault : Outcome → Bool
is_fault (ok found) = false
is_fault (err e) = true

-- The outcome of the device in a turn.
unfoldable pub turn_outcome : Sha2 → Share → ℕ → LoopWork → Surroundings → Vars → Outcome
turn_outcome sha2 share cpu_threads work env v =
    let (gpu_range, cpu_ranges) =
      partition_nonce_range work.template.nonce_start work.template.nonce_end share cpu_threads in
    gpu_outcome env (launch_header sha2 work.template work.xn1_low v.xn2) gpu_range.0 gpu_range.1

on_gated_keeps :
    (g : Gated) (r : Bool) (v : Vars)
    → ((on_gated g r v).recovers ≡ r)
      × ((on_gated g r v).vars.fault_streak ≡ v.fault_streak)
      × ((on_gated g r v).vars.gpu_nonces ≡ v.gpu_nonces)
      × ((on_gated g r v).vars.sample ≡ v.sample)
unfolding on_gated roll
on_gated_keeps hash_mismatch r v = (refl, refl, refl, refl)
on_gated_keeps above_target r v = (refl, refl, refl, refl)
on_gated_keeps (submit s) r v = (refl, refl, refl, refl)

settle_keeps :
    (f : RateOps) (sha2 : Sha2) (work : LoopWork) (hdr : List ℕ) (now : Readings) (r : Bool)
    (v : Vars) (win : Option WinSource)
    → ((settle f sha2 work hdr now r v win).recovers ≡ r)
      × ((settle f sha2 work hdr now r v win).vars.fault_streak ≡ v.fault_streak)
unfolding settle on_exhausted roll
settle_keeps f sha2 work hdr now r v none = (ground arith, ground arith)
settle_keeps f sha2 work hdr now r v (some win) =
    let k =
      on_gated_keeps (gate sha2 work.job_id work.template hdr v.xn2 (win_nonce win) (win_hash win))
        r v in
    (k.0, k.1)

absorb_fault_streak :
    (o : Outcome) (a b : ℕ) (now : Readings) (v : Vars)
    → v.fault_streak < 2 ^ 64
    → ((absorb o a b now v).recovers ≡ (is_fault o && v.fault_streak == 0))
      × (ltb 0 (absorb o a b now v).vars.fault_streak ≡ is_fault o)
      × ((absorb o a b now v).vars.fault_streak < 2 ^ 64)
unfolding absorb clean_sweep faulted_sweep is_fault
absorb_fault_streak (ok found) a b now v small = ground arith
absorb_fault_streak (err e) a b now v small = ground arith

module _ (f : RateOps) (sha2 : Sha2) (share : Share) (cpu_threads : ℕ) where
  turn_fault_streak :
      (work : LoopWork) (env : Surroundings) (v : Vars)
      → v.fault_streak < 2 ^ 64
      → ((turn f sha2 share cpu_threads work env v).recovers
          ≡ (is_fault (turn_outcome sha2 share cpu_threads work env v) && v.fault_streak == 0))
        × (ltb 0 (turn f sha2 share cpu_threads work env v).vars.fault_streak
            ≡ is_fault (turn_outcome sha2 share cpu_threads work env v))
        × ((turn f sha2 share cpu_threads work env v).vars.fault_streak < 2 ^ 64)
  unfolding turn turn_outcome finish_turn
  turn_fault_streak work env v small =
      let hdr = launch_header sha2 work.template work.xn1_low v.xn2 in
      let (gpu_range, cpu_ranges) =
        partition_nonce_range work.template.nonce_start work.template.nonce_end share cpu_threads in
      let ws = workers sha2 hdr work.template.target env.cancelled 0 cpu_ranges in
      let o = gpu_outcome env hdr gpu_range.0 gpu_range.1 in
      let counted = count_cpu ws v in
      let abs = absorb o gpu_range.0 gpu_range.1 env.now counted in
      let same : counted.fault_streak ≡ v.fault_streak = unfold count_cpu in refl in
      let (r, s, lt) =
        absorb_fault_streak o gpu_range.0 gpu_range.1 env.now counted (omega (arith, same)) in
      let (kr, ks) =
        settle_keeps f sha2 work hdr env.now abs.recovers abs.vars
          (pick_win abs.found (cpu_winner ws env.order)) in
      (
        kr ∙ r ∙ ap (λ k. is_fault o && k == 0) same,
        ap (λ k. ltb 0 k) ks ∙ s,
        omega (arith, ks, lt),
      )

  -- Whether the device faulted, turn by turn.
  abbrev pub turn_faults : List (LoopWork × Surroundings) → Vars → List Bool
  turn_faults [] v = []
  turn_faults ((work, env) ∷ later) v =
      is_fault (turn_outcome sha2 share cpu_threads work env v)
      ∷ turn_faults later (turn f sha2 share cpu_threads work env v).vars

-- Whether each turn called `recover`.
abbrev pub recoveries : List Turned → List Bool
recoveries [] = []
recoveries (t ∷ ts) = t.recovers ∷ recoveries ts

-- Where a run of faults starts; the flag says whether the entry before the list was one.
abbrev pub streak_starts : Bool → List Bool → List Bool
streak_starts before [] = []
streak_starts before (fault ∷ faults) = (fault && not before) ∷ streak_starts fault faults

zero_not_pos : (n : ℕ) → (n == 0) ≡ not (ltb 0 n)
zero_not_pos n = ground arith

-- Over any turns of the loop, the in-process recovery is tried exactly on the first fault of each
-- unbroken run of faulted sweeps, a run that was going on before the turns included; the streak is
-- a u64.
pub recoveries-turns :
    (f : RateOps) (sha2 : Sha2) (share : Share) (cpu_threads : ℕ)
    (works : List (LoopWork × Surroundings)) (v : Vars)
    → v.fault_streak < 2 ^ 64
    → recoveries (turns f sha2 share cpu_threads works v)
      ≡ streak_starts (ltb 0 v.fault_streak) (turn_faults f sha2 share cpu_threads works v)
unfolding turns
recoveries-turns f sha2 share cpu_threads [] v small = refl
recoveries-turns f sha2 share cpu_threads ((work, env) ∷ later) v small =
    let next = turn f sha2 share cpu_threads work env v in
    let fault = is_fault (turn_outcome sha2 share cpu_threads work env v) in
    let (r, s, lt) = turn_fault_streak f sha2 share cpu_threads work env v small in
    ap₂ ◌∷◌ (r ∙ ap (λ b. fault && b) (zero_not_pos v.fault_streak)) (
      recoveries-turns f sha2 share cpu_threads later next.vars lt
      ∙ ap (λ b. streak_starts b (turn_faults f sha2 share cpu_threads later next.vars)) s)

-- No new stamp in the sample, or a published rate of 0.0, and no nonce counted for the GPU.
abbrev Starved : GpuHashrateSample → Vars → Type 0
Starved before v = ((v.sample ≡ before) ⊎ (v.sample.ghs ≡ of_nat 0)) × (v.gpu_nonces ≡ 0)

on_exhausted-Starved :
    (f : RateOps) (now : Readings) (r : Bool) (v : Vars) (before : GpuHashrateSample)
    → ((elapsed : ℕ) → from_secs 10 ≤ elapsed → gpu_rate f 0 elapsed ≡ of_nat 0)
    → Starved before v
    → Starved before (on_exhausted f now r v).vars
unfolding on_exhausted roll publish
on_exhausted-Starved f now r v before none_counted h =
    elim (Bool-cases (leb (from_secs 10) (now.log_at - v.last_hashrate_log))) [
      | inr early ↦ rw early h
      | inl due ↦ rw due (
        inr (
            rw (h.1) (
              none_counted (now.log_at - v.last_hashrate_log)
                (leb→le (from_secs 10) (now.log_at - v.last_hashrate_log) due))),
        refl,
      )
    ]

settle-Starved :
    (f : RateOps) (sha2 : Sha2) (work : LoopWork) (hdr : List ℕ) (now : Readings) (r : Bool)
    (v : Vars) (win : Option WinSource) (before : GpuHashrateSample)
    → ((elapsed : ℕ) → from_secs 10 ≤ elapsed → gpu_rate f 0 elapsed ≡ of_nat 0)
    → Starved before v
    → Starved before (settle f sha2 work hdr now r v win).vars
unfolding settle
settle-Starved f sha2 work hdr now r v none before none_counted h =
    on_exhausted-Starved f now r v before none_counted h
settle-Starved f sha2 work hdr now r v (some win) before none_counted h =
    let (r', s', n', k) =
      on_gated_keeps (gate sha2 work.job_id work.template hdr v.xn2 (win_nonce win) (win_hash win))
        r v in
    let starved : Starved before
        (on_gated (gate sha2 work.job_id work.template hdr v.xn2 (win_nonce win) (win_hash win)) r
          v).vars =
      (
        elim h.0 [
          | inl same ↦ inl (k ∙ same)
          | inr idle ↦ inr (ap (λ (g : GpuHashrateSample). g.ghs) k ∙ idle)
        ],
        n' ∙ h.1,
      ) in
    starved

absorb-Starved :
    (o : Outcome) (a b : ℕ) (now : Readings) (v : Vars) (before : GpuHashrateSample)
    → is_fault o ≡ true
    → Starved before v
    → Starved before (absorb o a b now v).vars
unfolding absorb faulted_sweep is_fault
absorb-Starved (ok found) a b now v before h k = absurd cc
absorb-Starved (err e) a b now v before h k =
    elim (Bool-cases (saturating_add_u64 v.fault_streak 1 == 1)) [
      | inl first ↦ rw first k
      | inr again ↦ rw again k
    ]

module _ (f : RateOps) (sha2 : Sha2) (share : Share) (cpu_threads : ℕ) where
  turn-Starved :
      (work : LoopWork) (env : Surroundings) (v : Vars) (before : GpuHashrateSample)
      → ((elapsed : ℕ) → from_secs 10 ≤ elapsed → gpu_rate f 0 elapsed ≡ of_nat 0)
      → is_fault (turn_outcome sha2 share cpu_threads work env v) ≡ true
      → Starved before v
      → Starved before (turn f sha2 share cpu_threads work env v).vars
  unfolding turn turn_outcome finish_turn
  turn-Starved work env v before none_counted fault h =
      let hdr = launch_header sha2 work.template work.xn1_low v.xn2 in
      let (gpu_range, cpu_ranges) =
        partition_nonce_range work.template.nonce_start work.template.nonce_end share cpu_threads in
      let ws = workers sha2 hdr work.template.target env.cancelled 0 cpu_ranges in
      let o = gpu_outcome env hdr gpu_range.0 gpu_range.1 in
      let abs = absorb o gpu_range.0 gpu_range.1 env.now (count_cpu ws v) in
      settle-Starved f sha2 work hdr env.now abs.recovers abs.vars
        (pick_win abs.found (cpu_winner ws env.order)) before none_counted
        (absorb-Starved o gpu_range.0 gpu_range.1 env.now (count_cpu ws v) before fault
          (unfold count_cpu in h))

  turns-Starved :
      (works : List (LoopWork × Surroundings)) (v : Vars) (before : GpuHashrateSample)
      → ((elapsed : ℕ) → from_secs 10 ≤ elapsed → gpu_rate f 0 elapsed ≡ of_nat 0)
      → All (λ fault. fault ≡ true) (turn_faults f sha2 share cpu_threads works v)
      → Starved before v
      → All
          (λ (t : Turned). (t.vars.sample ≡ before) ⊎ (t.vars.sample.ghs ≡ of_nat 0))
          (turns f sha2 share cpu_threads works v)
  unfolding turns
  turns-Starved [] v before none_counted faults h = tt
  turns-Starved ((work, env) ∷ later) v before none_counted faults h =
      let next = turn f sha2 share cpu_threads work env v in
      let k = turn-Starved work env v before none_counted faults.0 h in
      (k.0, turns-Starved later next.vars before none_counted faults.1 k)

-- What IEEE 754 says of the rates: zero converts to 0.0, 0.0 over a positive number is 0.0, and ten
-- seconds or more are a positive number of seconds.
pub record ZeroRates (f : RateOps) : Type 0 where
  pub of_zero : f.of_u128 0 ≡ of_nat 0
  pub zero_div : (d : F64) → flt (of_nat 0) d ≡ true → f.div (of_nat 0) d ≡ of_nat 0
  pub some_secs :
      (elapsed : ℕ) → from_secs 10 ≤ elapsed → flt (of_nat 0) (f.as_secs_f64 elapsed) ≡ true

gigahashes_positive : flt (of_nat 0) (of_nat 1_000_000_000) ≡ true
unfolding of_nat
gigahashes_positive = refl

gpu_rate_zero :
    (f : RateOps) (elapsed : ℕ)
    → ZeroRates f
    → from_secs 10 ≤ elapsed
    → gpu_rate f 0 elapsed ≡ of_nat 0
unfolding gpu_rate
gpu_rate_zero f elapsed laws long =
    ap (λ x. f.div (f.div x (of_nat 1_000_000_000)) (f.as_secs_f64 elapsed)) laws.of_zero
    ∙ ap (λ x. f.div x (f.as_secs_f64 elapsed))
        (laws.zero_div (of_nat 1_000_000_000) gigahashes_positive)
    ∙ laws.zero_div (f.as_secs_f64 elapsed) (laws.some_secs elapsed long)

-- While the device faults in every turn, the sample is left as it was, or holds a published rate
-- of 0.0: the GPU's nonces start from 0, and the arithmetic of the rates gives 0.0 for the
-- conversion of zero and for 0.0 over a positive number, with a positive number of seconds from
-- ten seconds on.
pub turns_starved :
    (f : RateOps) (sha2 : Sha2) (share : Share) (cpu_threads : ℕ)
    (works : List (LoopWork × Surroundings)) (v : Vars)
    → ZeroRates f
    → v.gpu_nonces ≡ 0
    → All (λ fault. fault ≡ true) (turn_faults f sha2 share cpu_threads works v)
    → All
        (λ (t : Turned). (t.vars.sample ≡ v.sample) ⊎ (t.vars.sample.ghs ≡ of_nat 0))
        (turns f sha2 share cpu_threads works v)
turns_starved f sha2 share cpu_threads works v laws idle faults =
    turns-Starved f sha2 share cpu_threads works v v.sample
      (λ elapsed long. gpu_rate_zero f elapsed laws long) faults (inl refl, idle)
