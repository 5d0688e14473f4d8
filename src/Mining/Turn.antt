-- ===== src/Mining/Turn.antt =====
-- src/stratum/loop_stratum.rs: the launch, and what the loop does with its outcome. A device's
-- outcome, the flags that the CPU workers read and the order in which they end are arguments;
-- instants are nanoseconds of the monotonic clock.
pub mod Faults
pub mod Shares
pub mod Launches
use csd_mining_pool_public.Prelude.{
  ℕ, zero, suc, ◌+◌, ◌-◌, ◌*◌, ◌/◌, ◌^◌, min, Bool, true, false, not, ◌&&◌, ◌||◌, Option, none,
  some, List, [], ◌∷◌, Text, text_eq, ltb, leb, ◌==◌, if◌then◌else◌, from_secs, from_millis, u64,
  saturating_add_u64, wrapping_add, get_elem?,
}
use csd_mining_pool_public.Prelude.Float.{F64, of_nat}
use csd_mining_pool_public.Prelude.Results.{Result, ok, err}
use csd_mining_pool_public.Sha.{Sha2}
use csd_mining_pool_public.Partition.{Share, partition_nonce_range}
use csd_mining_pool_public.Launch.{
  CpuFind, Swept, Solution, Gated, hash_mismatch, above_target, submit, cpu_worker, launch_header,
  gate,
}
use csd_mining_pool_public.CpuBackend.{MiningResult}
use csd_mining_pool_public.Client.{StratumJob}
use csd_mining_pool_public.Mining.Source.{LoopWork}
use csd_mining_pool_public.Mining.View.{GpuHashrateSample, touch, publish}
use csd_mining_pool_public.Mining.Sweeps.{
  DeviceError, Outcome, Inner, refresh_every, is_other_job, inner_check, Vars, Readings,
  saturating_add_u128, gpu_fault_log_every, Absorbed, clean_sweep, faulted_sweep, absorb, leave,
  repoll, nap, launch,
}

pub data WinSource : Type 0 where
  gpu : MiningResult → WinSource
  cpu : CpuFind → WinSource

unfoldable pub pick_win : Option MiningResult → Option CpuFind → Option WinSource
pick_win (some g) c = some (gpu g)
pick_win none (some c) = some (cpu c)
pick_win none none = none

unfoldable pub win_nonce : WinSource → ℕ
win_nonce (gpu r) = r.nonce
win_nonce (cpu c) = c.nonce

unfoldable pub win_hash : WinSource → List ℕ
win_hash (gpu r) = r.hash
win_hash (cpu c) = c.hash

-- The arithmetic of `f64` in the rates, each operation of which rounds.
pub record RateOps : Type 0 where
  pub of_u128 : ℕ → F64
  pub as_secs_f64 : ℕ → F64
  pub div : F64 → F64 → F64
  pub add : F64 → F64 → F64

unfoldable pub gpu_rate : RateOps → ℕ → ℕ → F64
gpu_rate f nonces elapsed =
    f.div (f.div (f.of_u128 nonces) (of_nat 1_000_000_000)) (f.as_secs_f64 elapsed)

unfoldable pub cpu_rate : RateOps → ℕ → ℕ → F64
cpu_rate f nonces elapsed =
    f.div (f.div (f.of_u128 nonces) (of_nat 1_000_000)) (f.as_secs_f64 elapsed)

unfoldable pub combined_rate : RateOps → ℕ → ℕ → ℕ → F64
unfolding gpu_rate cpu_rate
combined_rate f gpu_nonces cpu_nonces elapsed =
    f.add (gpu_rate f gpu_nonces elapsed) (f.div (cpu_rate f cpu_nonces elapsed) (of_nat 1000))

-- A turn: the variables after it, what it sends, whether it called `recover`, and the combined rate
-- that it records.
pub record Turned : Type 0 where
  pub vars : Vars
  pub submitted : Option Solution
  pub recovers : Bool
  pub recorded : Option F64

unfoldable pub roll : Vars → Vars
roll v = record v { xn2 = wrapping_add v.xn2 1 }

-- The match on the gate for a win; a failed submit is only logged.
unfoldable pub on_gated : Gated → Bool → Vars → Turned
unfolding roll
on_gated hash_mismatch recovers v = record {
  vars = roll (record v { hash_mismatches = u64 (v.hash_mismatches + 1) });
  submitted = none;
  recovers = recovers;
  recorded = none;
}
on_gated above_target recovers v = record {
  vars = roll v;
  submitted = none;
  recovers = recovers;
  recorded = none;
}
on_gated (submit s) recovers v = record {
  vars = roll v;
  submitted = some s;
  recovers = recovers;
  recorded = none;
}

-- The arm without a win, with the rates every ten seconds.
unfoldable pub on_exhausted : RateOps → Readings → Bool → Vars → Turned
unfolding roll publish gpu_rate combined_rate
on_exhausted f now recovers v =
    let elapsed = now.log_at - v.last_hashrate_log in
    if leb (from_secs 10) elapsed
    then record {
      vars = roll (record v {
        sample = publish v.sample (gpu_rate f v.gpu_nonces elapsed) now.publish_ms;
        last_hashrate_log = now.log_at;
        gpu_nonces = 0;
        cpu_nonces = 0;
      });
      submitted = none;
      recovers = recovers;
      recorded = some (combined_rate f v.gpu_nonces v.cpu_nonces elapsed);
    }
    else record { vars = roll v; submitted = none; recovers = recovers; recorded = none }

-- The match on the win.
unfoldable pub settle :
    RateOps → Sha2 → LoopWork → List ℕ → Readings → Bool → Vars → Option WinSource → Turned
unfolding on_gated on_exhausted win_nonce win_hash
settle f sha2 work hdr now recovers v none = on_exhausted f now recovers v
settle f sha2 work hdr now recovers v (some win) =
    on_gated (gate sha2 work.job_id work.template hdr v.xn2 (win_nonce win) (win_hash win)) recovers
      v

-- The sum of the workers' `local_swept`.
unfoldable pub cpu_swept : List Swept → ℕ
cpu_swept [] = 0
cpu_swept (w ∷ ws) = w.local_swept + cpu_swept ws

-- The find of a worker, if it is there and has one.
unfoldable pub find_of : Option Swept → Option CpuFind
find_of none = none
find_of (some w) = w.found

-- `cpu_winner`: the find of the first worker, in the order in which they end, that has one.
unfoldable pub cpu_winner : List Swept → List ℕ → Option CpuFind
unfolding find_of
cpu_winner ws [] = none
cpu_winner ws (i ∷ order) = elim (find_of (get_elem? ws i)) [
  | some c ↦ some c
  | none ↦ cpu_winner ws order
]

-- The workers of the ranges, `cancelled i` being what the `i`-th of them reads.
unfoldable pub workers : Sha2 → List ℕ → List ℕ → (ℕ → ℕ → Bool) → ℕ → List (ℕ × ℕ) → List Swept
workers sha2 hdr target cancelled i [] = []
workers sha2 hdr target cancelled i ((cstart, cend) ∷ ranges) =
    cpu_worker sha2 hdr target (cancelled i) cstart cend
    ∷ workers sha2 hdr target cancelled (i + 1) ranges

-- What a launch meets: the clocks, the workers' flags and order, and the device's answer to a
-- header and a range.
pub record Surroundings : Type 0 where
  pub now : Readings
  pub cancelled : ℕ → ℕ → Bool
  pub order : List ℕ
  pub device : List ℕ → ℕ → ℕ → Outcome

-- `backend.hash_range`, for a range that is not empty.
unfoldable pub gpu_outcome : Surroundings → List ℕ → ℕ → ℕ → Outcome
gpu_outcome env hdr gstart gend = if ltb gstart gend then env.device hdr gstart gend else ok none

-- What the join of the CPU workers adds.
unfoldable pub count_cpu : List Swept → Vars → Vars
unfolding cpu_swept
count_cpu ws v = record v { cpu_nonces = saturating_add_u128 v.cpu_nonces (cpu_swept ws) }

-- The body of the inner loop after its checks, for a header, a GPU range and CPU workers.
unfoldable pub finish_turn :
    RateOps → Sha2 → LoopWork → List ℕ → ℕ × ℕ → List Swept → Surroundings → Vars → Turned
unfolding gpu_outcome count_cpu cpu_winner absorb pick_win settle
finish_turn f sha2 work hdr (gstart, gend) ws env v =
    let a = absorb (gpu_outcome env hdr gstart gend) gstart gend env.now (count_cpu ws v) in
    settle f sha2 work hdr env.now a.recovers a.vars (pick_win a.found (cpu_winner ws env.order))

-- One turn of the inner loop that launches.
unfoldable pub turn : RateOps → Sha2 → Share → ℕ → LoopWork → Surroundings → Vars → Turned
unfolding launch_header partition_nonce_range workers
turn f sha2 share cpu_threads work env v =
    let hdr = launch_header sha2 work.template work.xn1_low v.xn2 in
    let (gpu_range, cpu_ranges) =
      partition_nonce_range work.template.nonce_start work.template.nonce_end share cpu_threads in
    finish_turn f sha2 work hdr gpu_range
      (workers sha2 hdr work.template.target env.cancelled 0 cpu_ranges) env v

-- The turns of the loop on a list of works, each in its surroundings.
unfoldable pub turns :
    RateOps → Sha2 → Share → ℕ → List (LoopWork × Surroundings) → Vars → List Turned
turns f sha2 share cpu_threads [] v = []
turns f sha2 share cpu_threads ((work, env) ∷ later) v =
    let t = turn f sha2 share cpu_threads work env v in
    t ∷ turns f sha2 share cpu_threads later t.vars
