-- ===== src/Mining/View.antt =====
-- src/stratum/loop_stratum.rs: `GpuHashrateSample`, and `LoopGpuView`, the loop as the GPU watchdog
-- sees it. What the view reads is a state: the sample, the clock, the thermal gate, the age of the
-- last job, the backend and whether the process has been told to exit. The backend's `recover` is a
-- parameter.
use csd_mining_pool_public.Prelude.{
  ℕ, ◌-◌, ◌*◌, ◌^◌, min, Bool, true, false, Option, none, some, ltb, leb, ◌==◌, if◌then◌else◌,
  as_millis_u64,
}
use csd_mining_pool_public.Prelude.Float.{F64, inf, of_nat}
use csd_mining_pool_public.GpuWatchdog.{GpuWatchdogView}

pub record GpuHashrateSample : Type 0 where
  pub ghs : F64
  pub at_ms : ℕ

abbrev pub new_sample : GpuHashrateSample
new_sample = record { ghs = inf; at_ms = 0 }

unfoldable pub touch : GpuHashrateSample → ℕ → GpuHashrateSample
touch sample now_ms = record { ghs = sample.ghs; at_ms = now_ms }

unfoldable pub publish : GpuHashrateSample → F64 → ℕ → GpuHashrateSample
publish sample ghs now_ms = record { ghs = ghs; at_ms = now_ms }

abbrev pub gpu_wd_job_fresh_secs : ℕ
gpu_wd_job_fresh_secs = 120

unfoldable pub jobs_flowing_from_health : Option ℕ → Bool
jobs_flowing_from_health none = false
jobs_flowing_from_health (some age) = leb age gpu_wd_job_fresh_secs

unfoldable pub conn_healthy_from_health : Option ℕ → Bool
unfolding jobs_flowing_from_health
conn_healthy_from_health job_age_s = jobs_flowing_from_health job_age_s

-- `sample_stale_after_ms`, with its saturating product.
unfoldable pub stale_after_ms : ℕ → ℕ
stale_after_ms poll = min (as_millis_u64 poll * 3) (2 ^ 64 - 1)

-- What the view reads; `B` is the backend.
pub record LoopState (B : Type 0) : Type 0 where
  pub sample : GpuHashrateSample
  pub now_ms : ℕ
  pub paused : Bool
  pub job_age_s : Option ℕ
  pub backend : B
  pub exited : Bool

unfoldable pub view_ghs : ℕ → GpuHashrateSample → ℕ → F64
view_ghs sample_stale_after_ms sample now_ms =
    if sample.at_ms == 0
    then inf
    else if ltb sample_stale_after_ms (now_ms - sample.at_ms)
    then of_nat 0
    else sample.ghs

unfoldable pub loop_gpu_view :
    {B : Type 0} → (B → B × Bool) → ℕ → Bool → GpuWatchdogView (LoopState B)
unfolding view_ghs jobs_flowing_from_health conn_healthy_from_health
loop_gpu_view recover sample_stale_after_ms exit_on_escalate = record {
  gpu_ghs = λ s. view_ghs sample_stale_after_ms s.sample s.now_ms;
  jobs_flowing = λ s. if s.paused then false else jobs_flowing_from_health s.job_age_s;
  conn_healthy = λ s. if s.paused then false else conn_healthy_from_health s.job_age_s;
  recover_gpu = λ s. (record s { backend = (recover s.backend).0 }, (recover s.backend).1);
  escalate_exit = λ s. if exit_on_escalate then record s { exited = true } else s;
}
