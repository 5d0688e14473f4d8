-- ===== src/Mining/Sweeps.antt =====
-- src/stratum/loop_stratum.rs: the checks before a launch, the loop's variables, and what the outcome
-- of a device's sweep leaves of them.
use csd_mining_pool_public.Prelude.{
  ℕ, ◌+◌, ◌-◌, ◌^◌, min, Bool, true, false, not, Option, none, some, Text, text_eq, ltb, leb, ◌==◌,
  if◌then◌else◌, from_secs, saturating_add_u64,
}
use csd_mining_pool_public.Prelude.Results.{Result, ok, err}
use csd_mining_pool_public.CpuBackend.{MiningResult}
use csd_mining_pool_public.Client.{StratumJob}
use csd_mining_pool_public.Mining.View.{GpuHashrateSample, touch}

-- `DeviceError`, which holds a message.
abbrev pub DeviceError : Type 0
DeviceError = Text

abbrev pub Outcome : Type 0
Outcome = Result DeviceError (Option MiningResult)

-- What the top of the inner loop decides.
pub data Inner : Type 0 where
  leave : Inner
  repoll : Inner
  nap : Inner
  launch : Inner

abbrev pub refresh_every : ℕ
refresh_every = from_secs 2

unfoldable pub is_other_job : Option StratumJob → Text → Bool
is_other_job none job_id = false
is_other_job (some j) job_id = not (text_eq j.notify.job_id job_id)

unfoldable pub inner_check : Bool → ℕ → Option StratumJob → Text → Bool → Inner
unfolding is_other_job
inner_check stop since_refresh latest job_id paused =
    if stop
    then leave
    else if ltb refresh_every since_refresh
    then repoll
    else if is_other_job latest job_id
    then repoll
    else if paused
    then nap
    else launch

-- The loop's own variables.
pub record Vars : Type 0 where
  pub xn2 : ℕ
  pub hash_mismatches : ℕ
  pub gpu_nonces : ℕ
  pub cpu_nonces : ℕ
  pub fault_streak : ℕ
  pub last_fault_log : ℕ
  pub last_hashrate_log : ℕ
  pub sample : GpuHashrateSample

-- The readings of the clocks in one turn: Unix milliseconds for the stamps of the sample, and the
-- instants at which the two logs are timed.
pub record Readings : Type 0 where
  pub touch_ms : ℕ
  pub fault_at : ℕ
  pub log_at : ℕ
  pub publish_ms : ℕ

abbrev pub saturating_add_u128 : ℕ → ℕ → ℕ
saturating_add_u128 a b = min (a + b) (2 ^ 128 - 1)

abbrev pub gpu_fault_log_every : ℕ
gpu_fault_log_every = from_secs 10

-- What the device's outcome leaves: the variables, the find, and whether `recover` was called.
pub record Absorbed : Type 0 where
  pub vars : Vars
  pub found : Option MiningResult
  pub recovers : Bool

-- The arm of a clean sweep of `gstart..gend`.
unfoldable pub clean_sweep : Option MiningResult → ℕ → ℕ → Readings → Vars → Absorbed
unfolding touch
clean_sweep found gstart gend now v = record {
  vars = record v {
    gpu_nonces = saturating_add_u128 v.gpu_nonces (gend - gstart);
    sample = if ltb gstart gend then touch v.sample now.touch_ms else v.sample;
    fault_streak = if ltb 0 v.fault_streak then 0 else v.fault_streak;
  };
  found = found;
  recovers = false;
}

-- The arm of a faulted sweep.
unfoldable pub faulted_sweep : Readings → Vars → Absorbed
faulted_sweep now v =
    let streak = saturating_add_u64 v.fault_streak 1 in
    if streak == 1
    then record {
      vars = record v { fault_streak = streak; last_fault_log = now.fault_at };
      found = none;
      recovers = true;
    }
    else record {
      vars = record v {
        fault_streak = streak;
        last_fault_log =
            if leb gpu_fault_log_every (now.fault_at - v.last_fault_log)
            then now.fault_at
            else v.last_fault_log;
      };
      found = none;
      recovers = false;
    }

-- The match on the device's outcome.
unfoldable pub absorb : Outcome → ℕ → ℕ → Readings → Vars → Absorbed
unfolding clean_sweep faulted_sweep
absorb (ok found) gstart gend now v = clean_sweep found gstart gend now v
absorb (err e) gstart gend now v = faulted_sweep now v
