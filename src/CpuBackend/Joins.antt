-- ===== src/CpuBackend/Joins.antt =====
-- src/backends/cpu.rs: the threads of a sweep return, however they interleave.
use csd_mining_pool_public.Prelude.{
  ℕ, zero, suc, ◌+◌, ◌-◌, ◌*◌, ◌^◌, ◌≤◌, ◌<◌, ◌≡◌, refl, ◌⊎◌, inl, inr, Bool, true, false, not,
  Option, some, List, [], ◌∷◌, length, replicate, length-replicate, arith, Bool-cases,
}
use csd_mining_pool_public.Sha.{Sha2}
use csd_mining_pool_public.CpuBackend.Shared.{
  Shared, Worker, checking, fetching, sweeping, finding, stopping, returned, is_returned,
  all_returned, worker_step, step, run, shared_at, hash_at, hash_range, MiningResult,
}
use csd_mining_pool_public.CpuBackend.Order.{Below, count_returned-le, length-step, step-Below}

-- The thread `i` is there and has not returned.
abbrev pub live : ℕ → List Worker → Bool
live i [] = false
live zero (w ∷ ws) = not (is_returned w)
live (suc i) (w ∷ ws) = live i ws

-- What is left to do, in steps.
abbrev pub weight : Worker → ℕ
weight checking = 3
weight fetching = 2
weight (sweeping n e) = 4 + (e - n)
weight (finding r) = 2
weight stopping = 1
weight returned = 0

abbrev pub weights : List Worker → ℕ
weights [] = 0
weights (w ∷ ws) = weight w + weights ws

-- While some thread has not returned, one of them can make a step.
find_live : (ws : List Worker) → (all_returned ws ≡ true) ⊎ ((i : ℕ) × (live i ws ≡ true))
unfolding all_returned
find_live [] = inl refl
find_live (w ∷ ws) = elim (Bool-cases (is_returned w)) [
  | inr out ↦ inr (0, ground arith)
  | inl back ↦ elim (find_live ws) [ inl all ↦ inl (ground arith) | inr (i, l) ↦ inr (suc i, l) ]
]

module _ (hash_of : ℕ → List ℕ) (target : List ℕ) (nonce_end : ℕ) where
  -- Every entry of the schedule picks a thread that has not returned by then.
  abbrev pub Busy : List (ℕ × Bool) → List Worker → Shared → Type 0
  Busy [] ws s = Unit
  Busy ((i, c) ∷ schedule) ws s =
      (live i ws ≡ true)
      × Busy schedule (step hash_of target nonce_end i c ws s).0
          (step hash_of target nonce_end i c ws s).1

  worker_step_less :
      (c : Bool) (w : Worker) (s : Shared)
      → is_returned w ≡ false
      → s.next_nonce + 4096 < 2 ^ 64
      → 4 * (nonce_end - (worker_step hash_of target nonce_end c w s).1.next_nonce)
          + weight (worker_step hash_of target nonce_end c w s).0
        < 4 * (nonce_end - s.next_nonce) + weight w
  unfolding worker_step is_returned
  worker_step_less c checking s out fits = ground arith
  worker_step_less c fetching s out fits = ground arith
  worker_step_less c (sweeping n e) s out fits = ground arith
  worker_step_less c (finding r) s out fits = ground arith
  worker_step_less c stopping s out fits = ground arith
  worker_step_less c returned s out fits = ground arith

  step-Less :
      (i : ℕ) (c : Bool) (ws : List Worker) (s : Shared)
      → live i ws ≡ true
      → s.next_nonce + 4096 < 2 ^ 64
      → 4 * (nonce_end - (step hash_of target nonce_end i c ws s).1.next_nonce)
          + weights (step hash_of target nonce_end i c ws s).0
        < 4 * (nonce_end - s.next_nonce) + weights ws
  unfolding step
  step-Less i c [] s l fits = absurd cc
  step-Less zero c (w ∷ ws) s l fits = omega (arith, worker_step_less c w s (ground arith) fits)
  step-Less (suc i) c (w ∷ ws) s l fits = omega (arith, step-Less i c ws s l fits)

  Busy-bounded :
      (schedule : List (ℕ × Bool)) (ws : List Worker) (s : Shared)
      → nonce_end < 2 ^ 32
      → length ws < 2 ^ 50
      → Below hash_of target nonce_end 0 ws s
      → Busy schedule ws s
      → length schedule ≤ 4 * (nonce_end - s.next_nonce) + weights ws
  Busy-bounded [] ws s small few below busy = omega arith
  Busy-bounded ((i, c) ∷ schedule) ws s small few below busy =
      let after = step hash_of target nonce_end i c ws s in
      let fits : s.next_nonce + 4096 < 2 ^ 64 = omega (arith, count_returned-le ws) in
      let long : length after.0 < 2 ^ 50 =
        omega (arith, length-step hash_of target nonce_end i c ws s) in
      omega (
        arith,
        step-Less i c ws s busy.0 fits,
        Busy-bounded schedule after.0 after.1 small long
            (step-Below hash_of target nonce_end i c 0 ws s small (omega arith) below) busy.1,
      )

weights_start : (threads : ℕ) → weights (replicate threads checking) ≡ 3 * threads
weights_start zero = omega arith
weights_start (suc threads) = omega (arith, weights_start threads)

-- However the threads interleave and whatever flags they read, a schedule that steps only threads
-- which have not returned has at most four steps for each nonce and three for each thread, and
-- after it either the sweep has its result or some thread can make another step; the range is not
-- empty and ends below 2 ^ 32, and there are fewer than 2 ^ 50 threads.
pub hash_range_joins :
    (sha2 : Sha2) (threads : ℕ) (header target : List ℕ) (nonce_start nonce_end : ℕ)
    (schedule : List (ℕ × Bool))
    → nonce_end < 2 ^ 32
    → nonce_start < nonce_end
    → threads < 2 ^ 50
    → Busy
        (hash_at sha2 header)
        target
        nonce_end
        schedule
        (replicate threads checking)
        (shared_at nonce_start)
    → (length schedule ≤ 4 * (nonce_end - nonce_start) + 3 * threads)
      × (((result : Option MiningResult) × (hash_range sha2 threads header target nonce_start
                nonce_end schedule
              ≡ some result))
          ⊎ ((i : ℕ) × (live i
                  (run
                    (hash_at sha2 header)
                    target
                    nonce_end
                    schedule
                    (replicate threads checking)
                    (shared_at nonce_start)).0
                ≡ true)))
unfolding hash_range
hash_range_joins sha2 threads header target nonce_start nonce_end schedule small some_nonce few
      busy =
    let before : Below (hash_at sha2 header) target nonce_end 0 (replicate threads checking)
        (shared_at nonce_start) =
      omega arith in
    let end =
      (run (hash_at sha2 header) target nonce_end schedule (replicate threads checking)
        (shared_at nonce_start)) in
    (
      omega (
        arith,
        weights_start threads,
        Busy-bounded (hash_at sha2 header) target nonce_end schedule (replicate threads checking)
            (shared_at nonce_start) small (omega (arith, length-replicate threads checking)) before
            busy,
      ),
      elim (find_live end.0) [ inl all ↦ inl (end.1.found, ground arith) | inr l ↦ inr l ],
    )
