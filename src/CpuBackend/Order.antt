-- ===== src/CpuBackend/Order.antt =====
-- src/backends/cpu.rs: how far the shared counter runs, which keeps its `u64` from wrapping.
use csd_mining_pool_public.Prelude.{
  ℕ, zero, suc, ◌+◌, ◌*◌, ◌^◌, ◌≤◌, ◌<◌, ◌≡◌, Bool, List, [], ◌∷◌, length, if◌then◌else◌, arith,
}
use csd_mining_pool_public.CpuBackend.Shared.{
  Shared, Worker, checking, fetching, sweeping, finding, stopping, returned, is_returned,
  worker_step, step,
}

-- The threads that have returned.
abbrev pub count_returned : List Worker → ℕ
count_returned [] = 0
count_returned (w ∷ ws) = (if is_returned w then 1 else 0) + count_returned ws

pub count_returned-le : (ws : List Worker) → count_returned ws ≤ length ws
count_returned-le [] = omega arith
count_returned-le (w ∷ ws) = ground (arith, count_returned-le ws)

module _ (hash_of : ℕ → List ℕ) (target : List ℕ) (nonce_end : ℕ) where
  pub length-step :
      (i : ℕ) (c : Bool) (ws : List Worker) (s : Shared)
      → length (step hash_of target nonce_end i c ws s).0 ≡ length ws
  unfolding step
  length-step i c [] s = omega arith
  length-step zero c (w ∷ ws) s = omega arith
  length-step (suc i) c (w ∷ ws) s = omega (arith, length-step i c ws s)

  -- The counter after the threads `k` and `ws` have returned from it.
  abbrev pub Below : ℕ → List Worker → Shared → Type 0
  Below k ws s = s.next_nonce ≤ nonce_end + 4096 + 4096 * (k + count_returned ws)

  worker_step-Below :
      (k : ℕ) (c : Bool) (w : Worker) (s : Shared)
      → nonce_end < 2 ^ 32
      → k < 2 ^ 50
      → s.next_nonce ≤ nonce_end + 4096 + 4096 * (k + (if is_returned w then 1 else 0))
      → (worker_step hash_of target nonce_end c w s).1.next_nonce
        ≤ nonce_end
          + 4096
          + 4096
            * (k + (if is_returned (worker_step hash_of target nonce_end c w s).0 then 1 else 0))
  unfolding worker_step is_returned
  worker_step-Below k c checking s small few h = ground arith
  worker_step-Below k c fetching s small few h = ground arith
  worker_step-Below k c (sweeping n e) s small few h = ground arith
  worker_step-Below k c (finding r) s small few h = ground arith
  worker_step-Below k c stopping s small few h = ground arith
  worker_step-Below k c returned s small few h = ground arith

  pub step-Below :
      (i : ℕ) (c : Bool) (k : ℕ) (ws : List Worker) (s : Shared)
      → nonce_end < 2 ^ 32
      → k + length ws < 2 ^ 50
      → Below k ws s
      → Below k
          (step hash_of target nonce_end i c ws s).0
          (step hash_of target nonce_end i c ws s).1
  unfolding step
  step-Below i c k [] s small few h = h
  step-Below zero c k (w ∷ ws) s small few h = omega (
    arith,
    count_returned-le ws,
    worker_step-Below (k + count_returned ws) c w s small (omega (arith, count_returned-le ws))
        (omega arith),
  )
  step-Below (suc i) c k (w ∷ ws) s small few h =
      let d = (if is_returned w then 1 else 0) in
      let le : d ≤ 1 = ground arith in
      omega (arith, step-Below i c (k + d) ws s small (omega (arith, le)) (omega arith))
