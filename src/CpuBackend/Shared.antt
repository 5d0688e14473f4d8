-- ===== src/CpuBackend/Shared.antt =====
-- src/backends/cpu.rs: the state that the threads share, a thread's steps, and the sweep.
use csd_mining_pool_public.Prelude.{
  ℕ, zero, suc, ◌+◌, Bool, true, false, ◌&&◌, ◌||◌, Option, none, some, List, [], ◌∷◌, take, drop,
  ltb, leb, if◌then◌else◌, min, max, replicate, u64, saturating_add_u64,
}
use csd_mining_pool_public.Sha.{Sha2, midstate_of_first_chunk_fast}
use csd_mining_pool_public.Target.{hash_leq_target}
use csd_mining_pool_public.Launch.{nonce_hash}

pub record MiningResult : Type 0 where
  pub nonce : ℕ
  pub hash : List ℕ

-- The atomics and the mutex of one call.
pub record Shared : Type 0 where
  pub next_nonce : ℕ
  pub found : Option MiningResult
  pub local_stop : Bool

-- Where a thread stands: before the flags, before `fetch_add`, in its chunk, with a find in hand
-- before the lock, before the store to `local_stop`, or returned.
pub data Worker : Type 0 where
  checking : Worker
  fetching : Worker
  sweeping : ℕ → ℕ → Worker
  finding : MiningResult → Worker
  stopping : Worker
  returned : Worker

abbrev pub chunk : ℕ
chunk = 4096

-- `if g.is_none() { *g = Some(..) }`.
unfoldable pub or_insert : Option MiningResult → MiningResult → Option MiningResult
or_insert none r = some r
or_insert (some q) r = some q

module _ (hash_of : ℕ → List ℕ) (target : List ℕ) (nonce_end : ℕ) where
  -- One step of a thread; `cancelled` is `stop || new_job` as it reads them.
  unfoldable pub worker_step : Bool → Worker → Shared → Worker × Shared
  unfolding or_insert
  worker_step cancelled checking s =
      if cancelled || s.local_stop then (returned, s) else (fetching, s)
  worker_step cancelled fetching s =
      let start = s.next_nonce in
      let taken = record s { next_nonce = u64 (start + chunk) } in
      if leb nonce_end start
      then (returned, taken)
      else (sweeping start (min (saturating_add_u64 start chunk) nonce_end), taken)
  worker_step cancelled (sweeping n end) s =
      if ltb n end
      then if hash_leq_target (hash_of n) target
        then (finding (record { nonce = n; hash = hash_of n }), s)
        else (sweeping (n + 1) end, s)
      else (checking, s)
  worker_step cancelled (finding r) s = (stopping, record s { found = or_insert s.found r })
  worker_step cancelled stopping s = (returned, record s { local_stop = true })
  worker_step cancelled returned s = (returned, s)

  -- The thread `i` makes a step.
  unfoldable pub step : ℕ → Bool → List Worker → Shared → List Worker × Shared
  step i cancelled [] s = ([], s)
  step zero cancelled (w ∷ ws) s = let (w', s') = worker_step cancelled w s in (w' ∷ ws, s')
  step (suc i) cancelled (w ∷ ws) s = let (ws', s') = step i cancelled ws s in (w ∷ ws', s')

  unfoldable pub run : List (ℕ × Bool) → List Worker → Shared → List Worker × Shared
  run [] ws s = (ws, s)
  run ((i, cancelled) ∷ schedule) ws s =
      let (ws', s') = step i cancelled ws s in run schedule ws' s'

unfoldable pub is_returned : Worker → Bool
is_returned returned = true
is_returned _ = false

-- What the scope joins on.
unfoldable pub all_returned : List Worker → Bool
unfolding is_returned
all_returned [] = true
all_returned (w ∷ ws) = is_returned w && all_returned ws

-- `CpuBackend::new`.
unfoldable pub new_threads : ℕ → ℕ
new_threads threads = max threads 1

abbrev pub shared_at : ℕ → Shared
shared_at nonce_start = record { next_nonce = nonce_start; found = none; local_stop = false }

-- The hash of one nonce as a thread computes it.
unfoldable pub hash_at : Sha2 → List ℕ → ℕ → List ℕ
unfolding midstate_of_first_chunk_fast nonce_hash
hash_at sha2 header n =
    nonce_hash sha2 (midstate_of_first_chunk_fast sha2 header) (take 16 (drop 64 header)) n

-- `hash_range` under a schedule: nothing while some thread has not returned, else the result.
unfoldable pub hash_range :
    Sha2 → ℕ → List ℕ → List ℕ → ℕ → ℕ → List (ℕ × Bool) → Option (Option MiningResult)
unfolding hash_at run all_returned
hash_range sha2 threads header target nonce_start nonce_end schedule =
    let (ws, s) =
      run (hash_at sha2 header) target nonce_end schedule (replicate threads checking)
        (shared_at nonce_start) in
    if leb nonce_end nonce_start then some none else if all_returned ws then some s.found else none
