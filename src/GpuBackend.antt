-- ===== src/GpuBackend.antt =====
-- src/backends/cuda.rs: the sweep of a nonce range by two pipes, one of which is drained while the
-- other computes; `new_geometry` is also that of src/backends/opencl.rs. The driver and the kernels
-- that it runs are the parameter `Device`. The turns of a loop have fuel, and `cancelled i` is
-- `stop || new_job` as the `i`-th turn reads it. The two pipes are kept as the current one and the
-- other, so that the change of `current_pipe` exchanges them.
pub mod Turns
pub mod Ends
pub mod Covers
pub mod Opencl
pub mod Same
use csd_mining_pool_public.Prelude.{
  ℕ, zero, suc, ◌+◌, ◌-◌, ◌*◌, ◌++◌, min, max, Bool, true, false, not, ◌&&◌, ◌||◌, Option, none,
  some, List, [], ◌∷◌, ltb, leb, ◌==◌, if◌then◌else◌, u64, saturating_add_u64,
}
use csd_mining_pool_public.Prelude.Bytes.{to_be_bytes}
use csd_mining_pool_public.Prelude.Results.{Result, ok, err}
use csd_mining_pool_public.CpuBackend.{MiningResult}
use csd_mining_pool_public.Mining.Sweeps.{DeviceError, Outcome}

-- What the host reads back from a pipe.
pub record Readout : Type 0 where
  pub found_flag : ℕ
  pub found_nonce : ℕ
  pub found_hash : List ℕ

-- The setup of a call, a launch from a start to the end of the range, and what the pipe of the
-- launch from a start holds when it has finished.
pub record Device : Type 0 where
  pub setup : Option DeviceError
  pub start_launch : ℕ → ℕ → Option DeviceError
  pub readout : ℕ → Result DeviceError Readout

-- The fields of the backends, after the `max(1)` of their constructors.
pub record Geometry : Type 0 where
  pub blocks : ℕ
  pub threads_per_block : ℕ
  pub nonces_per_thread : ℕ

unfoldable pub new_geometry : ℕ → ℕ → ℕ → Geometry
new_geometry blocks threads_per_block nonces_per_thread = record {
  blocks = max blocks 1;
  threads_per_block = max threads_per_block 1;
  nonces_per_thread = max nonces_per_thread 1;
}

unfoldable pub nonces_per_launch : Geometry → ℕ
nonces_per_launch g = u64 (u64 (g.blocks * g.threads_per_block) * g.nonces_per_thread)

-- The words of the hash, each with its most significant byte first.
unfoldable pub words_to_bytes : List ℕ → List ℕ
words_to_bytes [] = []
words_to_bytes (w ∷ ws) = to_be_bytes 4 w ++ words_to_bytes ws

unfoldable pub drain_pipe : Result DeviceError Readout → Outcome
unfolding words_to_bytes
drain_pipe (err e) = err e
drain_pipe (ok r) =
    if r.found_flag == 0
    then ok none
    else ok (some (record { nonce = r.found_nonce; hash = words_to_bytes r.found_hash }))

-- The start of the launch in flight on the current pipe and on the other one, if any.
pub record Pipes : Type 0 where
  pub current : Option ℕ
  pub other : Option ℕ
  pub next_start : ℕ

pub data Stepped : Type 0 where
  return : Outcome → Stepped
  again : Pipes → Stepped

unfoldable pub is_idle : Option ℕ → Bool
is_idle none = true
is_idle (some start) = false

module _ (dev : Device) (per_launch nonce_end : ℕ) where
  unfoldable pub drained : Option ℕ → Outcome
  unfolding drain_pipe
  drained none = ok none
  drained (some start) = drain_pipe (dev.readout start)

  -- A launch on the current pipe, which is idle, and the exchange.
  unfoldable pub launched : Option DeviceError → ℕ → Pipes → Stepped
  launched (some e) size p = return (err e)
  launched none size p = again (record {
    current = p.other;
    other = some p.next_start;
    next_start = saturating_add_u64 p.next_start size;
  })

  -- The exchange without a launch.
  unfoldable pub exchanged : Pipes → Stepped
  exchanged p = again (record { current = p.other; other = none; next_start = p.next_start })

  -- The rest of a turn of the CUDA loop once the current pipe is drained.
  unfoldable pub cuda_launch : Pipes → Stepped
  unfolding launched exchanged is_idle
  cuda_launch p =
      let size = min per_launch (nonce_end - p.next_start) in
      if ltb p.next_start nonce_end
      then if ltb 0 size
        then launched (dev.start_launch p.next_start nonce_end) size p
        else exchanged p
      else if is_idle p.other
      then return (ok none)
      else exchanged p

  -- A turn, with the rest of it. A find or a fault of the drained pipe ends the sweep.
  unfoldable pub sweep_step : (Pipes → Stepped) → Bool → Pipes → Stepped
  unfolding drained
  sweep_step launch cancelled p = if cancelled then return (ok none) else elim (drained p.current) [
    | err e ↦ return (err e)
    | ok (some r) ↦ return (ok (some r))
    | ok none ↦ launch p
  ]

  unfoldable pub sweep_loop : (Pipes → Stepped) → (ℕ → Bool) → ℕ → ℕ → Pipes → Option Outcome
  unfolding sweep_step
  sweep_loop launch cancelled zero i p = none
  sweep_loop launch cancelled (suc fuel) i p = elim (sweep_step launch (cancelled i) p) [
    | return o ↦ some o
    | again next ↦ sweep_loop launch cancelled fuel (i + 1) next
  ]

  -- `hash_range`, with the rest of a turn.
  unfoldable pub gpu_hash_range : (Pipes → Stepped) → (ℕ → Bool) → ℕ → ℕ → Option Outcome
  unfolding sweep_loop
  gpu_hash_range launch cancelled fuel nonce_start =
      if leb nonce_end nonce_start then some (ok none) else elim dev.setup [
        | some e ↦ some (err e)
        | none ↦
            sweep_loop launch cancelled fuel 0
              (record { current = none; other = none; next_start = nonce_start })
      ]

unfoldable pub cuda_hash_range : Device → Geometry → (ℕ → Bool) → ℕ → ℕ → ℕ → Option Outcome
unfolding gpu_hash_range cuda_launch nonces_per_launch
cuda_hash_range dev g cancelled fuel nonce_start nonce_end =
    gpu_hash_range dev (nonces_per_launch g) nonce_end
      (cuda_launch dev (nonces_per_launch g) nonce_end) cancelled fuel nonce_start
