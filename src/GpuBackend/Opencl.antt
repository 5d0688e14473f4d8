-- ===== src/GpuBackend/Opencl.antt =====
-- src/backends/opencl.rs: the sweep of a nonce range by the pipes `a` and `b`, the one that
-- `current_pipe` picks first. The driver and the kernels are the parameter `Device`; the turns of
-- the loop have fuel, and `cancelled i` is `stop || new_job` as the `i`-th turn reads it.
use csd_mining_pool_public.Prelude.{
  ℕ, zero, suc, ◌+◌, ◌-◌, min, Bool, true, false, not, ◌&&◌, Option, none, some, ltb, leb, ◌==◌,
  if◌then◌else◌, saturating_add_u64,
}
use csd_mining_pool_public.Prelude.Results.{Result, ok, err}
use csd_mining_pool_public.Mining.Sweeps.{DeviceError, Outcome}
use csd_mining_pool_public.GpuBackend.{
  Readout, Device, Geometry, nonces_per_launch, words_to_bytes, is_idle,
}

-- The start of the launch in flight on each pipe, if any; `current_pipe` is true for the pipe `b`.
pub record PipePair : Type 0 where
  pub a : Option ℕ
  pub b : Option ℕ
  pub current_pipe : Bool
  pub next_start : ℕ

unfoldable pub pick_pipe : Bool → PipePair → Option ℕ
pick_pipe false p = p.a
pick_pipe true p = p.b

-- A pipe with another launch in flight, or none.
unfoldable pub set_pipe : Bool → Option ℕ → PipePair → PipePair
set_pipe false o p = record p { a = o }
set_pipe true o p = record p { b = o }

unfoldable pub opencl_drain_pipe : Result DeviceError Readout → Outcome
unfolding words_to_bytes
opencl_drain_pipe (err e) = err e
opencl_drain_pipe (ok r) =
    if r.found_flag == 0
    then ok none
    else ok (some (record { nonce = r.found_nonce; hash = words_to_bytes r.found_hash }))

-- A turn: the end of the sweep, with what is still in flight, or the pipes for the next turn.
pub data PairStep : Type 0 where
  finish : Outcome → PipePair → PairStep
  go_on : PipePair → PairStep

module _ (dev : Device) (per_launch nonce_end : ℕ) where
  unfoldable pub drain_result : Option ℕ → Outcome
  unfolding opencl_drain_pipe
  drain_result none = ok none
  drain_result (some start) = opencl_drain_pipe (dev.readout start)

  -- What starting the kernel leads to.
  unfoldable pub enqueued : Option DeviceError → ℕ → PipePair → PairStep
  unfolding set_pipe
  enqueued (some e) size p = finish (err e) p
  enqueued none size p = go_on (record (set_pipe p.current_pipe (some p.next_start) p) {
    current_pipe = not p.current_pipe;
    next_start = saturating_add_u64 p.next_start size;
  })

  -- A turn that could not launch.
  unfoldable pub not_launched : PipePair → PairStep
  unfolding is_idle
  not_launched p =
      if is_idle p.a && is_idle p.b
      then finish (ok none) p
      else go_on (record p { current_pipe = not p.current_pipe })

  -- The rest of a turn once the current pipe is drained.
  unfoldable pub launch_next : PipePair → PairStep
  unfolding enqueued not_launched
  launch_next p =
      let size = min per_launch (nonce_end - p.next_start) in
      if ltb p.next_start nonce_end
      then if ltb 0 size
        then enqueued (dev.start_launch p.next_start nonce_end) size p
        else not_launched p
      else not_launched p

  -- What the drain of the current pipe leads to, for the pipes without that launch. A find drains
  -- the other pipe as well, whatever that gives.
  unfoldable pub on_drained : Outcome → PipePair → PairStep
  unfolding set_pipe launch_next
  on_drained (err e) p = finish (err e) p
  on_drained (ok (some r)) p = finish (ok (some r)) (set_pipe (not p.current_pipe) none p)
  on_drained (ok none) p = launch_next p

  unfoldable pub pair_step : Bool → PipePair → PairStep
  unfolding pick_pipe set_pipe drain_result on_drained
  pair_step cancelled p =
      if cancelled
      then finish (ok none) p
      else on_drained (drain_result (pick_pipe p.current_pipe p)) (set_pipe p.current_pipe none p)

  -- The outcome and the pipes after the sweep.
  unfoldable pub pair_loop : (ℕ → Bool) → ℕ → ℕ → PipePair → Option (Outcome × PipePair)
  unfolding pair_step
  pair_loop cancelled zero i p = none
  pair_loop cancelled (suc fuel) i p = elim (pair_step (cancelled i) p) [
    | finish o left ↦ some (o, left)
    | go_on next ↦ pair_loop cancelled fuel (i + 1) next
  ]

abbrev pub pipes_at : ℕ → PipePair
pipes_at nonce_start = record { a = none; b = none; current_pipe = false; next_start = nonce_start }

unfoldable pub opencl_sweep :
    Device → Geometry → (ℕ → Bool) → ℕ → ℕ → ℕ → Option (Outcome × PipePair)
unfolding pair_loop nonces_per_launch
opencl_sweep dev g cancelled fuel nonce_start nonce_end =
    if leb nonce_end nonce_start then some (ok none, pipes_at nonce_start) else elim dev.setup [
      | some e ↦ some (err e, pipes_at nonce_start)
      | none ↦ pair_loop dev (nonces_per_launch g) nonce_end cancelled fuel 0 (pipes_at nonce_start)
    ]

-- The outcome alone.
unfoldable pub outcome_of : Option (Outcome × PipePair) → Option Outcome
outcome_of none = none
outcome_of (some (o, left)) = some o

unfoldable pub opencl_hash_range : Device → Geometry → (ℕ → Bool) → ℕ → ℕ → ℕ → Option Outcome
unfolding opencl_sweep outcome_of
opencl_hash_range dev g cancelled fuel nonce_start nonce_end =
    outcome_of (opencl_sweep dev g cancelled fuel nonce_start nonce_end)
