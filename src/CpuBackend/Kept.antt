-- ===== src/CpuBackend/Kept.antt =====
-- src/backends/cpu.rs: what the threads of a sweep keep together, for a nonce of the range that
-- passes.
use csd_mining_pool_public.Prelude.{
  ℕ, zero, suc, ◌+◌, ◌^◌, ◌<◌, ◌≡◌, ◌⊎◌, inl, inr, Bool, true, false, List, [], ◌∷◌, length, arith,
  All,
}
use csd_mining_pool_public.Target.{hash_leq_target}
use csd_mining_pool_public.CpuBackend.Thread.{
  is_some, Uncancelled, Open, SomeHolds, Reason, StopsFound, Later, worker_step-Later,
  worker_step-Reason, worker_step-Holds, Reason-Later,
}
use csd_mining_pool_public.CpuBackend.Order.{Below, count_returned-le, length-step, step-Below}
use csd_mining_pool_public.CpuBackend.Shared.{
  Shared, Worker, checking, fetching, sweeping, finding, stopping, returned, is_returned,
  all_returned, worker_step, step, run,
}

module _ (hash_of : ℕ → List ℕ) (target : List ℕ) (nonce_end m : ℕ) where
  module _ (inside : m < nonce_end) (hit : hash_leq_target (hash_of m) target ≡ true) where
    pub reasons-Later :
        (s s' : Shared) (ws : List Worker)
        → Later hash_of target nonce_end m s s'
        → All (Reason hash_of target nonce_end m s) ws
        → All (Reason hash_of target nonce_end m s') ws
    reasons-Later s s' [] l r = tt
    reasons-Later s s' (w ∷ ws) l r = (
      Reason-Later hash_of target nonce_end m inside hit s s' w l r.0,
      reasons-Later s s' ws l r.1,
    )

    pub step-Later :
        (i : ℕ) (ws : List Worker) (s : Shared)
        → s.next_nonce + 4096 < 2 ^ 64
        → Later hash_of target nonce_end m s (step hash_of target nonce_end i false ws s).1
    unfolding step
    step-Later i [] s fits = ground arith
    step-Later zero (w ∷ ws) s fits =
        worker_step-Later hash_of target nonce_end m inside hit w s fits
    step-Later (suc i) (w ∷ ws) s fits = step-Later i ws s fits

    pub step_reasons :
        (i : ℕ) (ws : List Worker) (s : Shared)
        → s.next_nonce + 4096 < 2 ^ 64
        → StopsFound hash_of target nonce_end m s
        → All (Reason hash_of target nonce_end m s) ws
        → All
            (Reason hash_of target nonce_end m (step hash_of target nonce_end i false ws s).1)
            (step hash_of target nonce_end i false ws s).0
          × StopsFound hash_of target nonce_end m (step hash_of target nonce_end i false ws s).1
    unfolding step
    step_reasons i [] s fits st r = (tt, st)
    step_reasons zero (w ∷ ws) s fits st r =
        let (r', st') = worker_step-Reason hash_of target nonce_end m inside hit w s fits st r.0 in
        (
          (
            r',
            reasons-Later s (worker_step hash_of target nonce_end false w s).1 ws
                (worker_step-Later hash_of target nonce_end m inside hit w s fits) r.1,
          ),
          st',
        )
    step_reasons (suc i) (w ∷ ws) s fits st r =
        let (r', st') = step_reasons i ws s fits st r.1 in
        (
          (
            Reason-Later hash_of target nonce_end m inside hit s
                (step hash_of target nonce_end i false ws s).1 w (step-Later i ws s fits) r.0,
            r',
          ),
          st',
        )

    pub step_holds :
        (i : ℕ) (ws : List Worker) (s : Shared)
        → s.next_nonce + 4096 < 2 ^ 64
        → Open hash_of target nonce_end m s ⊎ SomeHolds hash_of target nonce_end m ws
        → Open hash_of target nonce_end m (step hash_of target nonce_end i false ws s).1
          ⊎ SomeHolds hash_of target nonce_end m (step hash_of target nonce_end i false ws s).0
    unfolding step
    step_holds i [] s fits h = h
    step_holds zero (w ∷ ws) s fits (inl o) =
        elim (worker_step-Holds hash_of target nonce_end m inside hit w s fits (inl o)) [
          | inl o' ↦ inl o'
          | inr k ↦ inr (inl k)
        ]
    step_holds zero (w ∷ ws) s fits (inr (inl k)) =
        elim (worker_step-Holds hash_of target nonce_end m inside hit w s fits (inr k)) [
          | inl o' ↦ inl o'
          | inr k' ↦ inr (inl k')
        ]
    step_holds zero (w ∷ ws) s fits (inr (inr k)) = inr (inr k)
    step_holds (suc i) (w ∷ ws) s fits (inl o) = elim (step_holds i ws s fits (inl o)) [
      | inl o' ↦ inl o'
      | inr k ↦ inr (inr k)
    ]
    step_holds (suc i) (w ∷ ws) s fits (inr (inl k)) = inr (inl k)
    step_holds (suc i) (w ∷ ws) s fits (inr (inr k)) = elim (step_holds i ws s fits (inr k)) [
      | inl o' ↦ inl o'
      | inr k' ↦ inr (inr k')
    ]

    -- What the threads and the shared state keep, for `m`.
    pub record Kept (ws : List Worker) (s : Shared) : Type 0 where
      pub some_thread : 0 < length ws
      pub few : length ws < 2 ^ 50
      pub below : Below hash_of target nonce_end 0 ws s
      pub stops : StopsFound hash_of target nonce_end m s
      pub reasons : All (Reason hash_of target nonce_end m s) ws
      pub seen : Open hash_of target nonce_end m s ⊎ SomeHolds hash_of target nonce_end m ws

    pub step-Kept :
        (i : ℕ) (ws : List Worker) (s : Shared)
        → nonce_end < 2 ^ 32
        → Kept ws s
        → Kept
            (step hash_of target nonce_end i false ws s).0
            (step hash_of target nonce_end i false ws s).1
    step-Kept i ws s small k =
        let some_thread = k.some_thread in
        let few = k.few in
        let below = k.below in
        let fits : s.next_nonce + 4096 < 2 ^ 64 = omega (arith, count_returned-le ws) in
        let (r, st) = step_reasons i ws s fits k.stops k.reasons in
        record {
          some_thread = omega (arith, length-step hash_of target nonce_end i false ws s);
          few = omega (arith, length-step hash_of target nonce_end i false ws s);
          below = step-Below hash_of target nonce_end i false 0 ws s small (omega arith) below;
          stops = st;
          reasons = r;
          seen = step_holds i ws s fits k.seen;
        }

    pub run-Kept :
        (schedule : List (ℕ × Bool)) (ws : List Worker) (s : Shared)
        → nonce_end < 2 ^ 32
        → Uncancelled schedule
        → Kept ws s
        → Kept
            (run hash_of target nonce_end schedule ws s).0
            (run hash_of target nonce_end schedule ws s).1
    unfolding run
    run-Kept [] ws s small u k = k
    run-Kept ((i, c) ∷ schedule) ws s small u k = rw (u.0) (
        run-Kept schedule (step hash_of target nonce_end i false ws s).0
          (step hash_of target nonce_end i false ws s).1 small u.1 (step-Kept i ws s small k))

    pub nobody_holds :
        (ws : List Worker) → all_returned ws ≡ true → SomeHolds hash_of target nonce_end m ws → ⊥
    unfolding all_returned is_returned
    nobody_holds [] b h = h
    nobody_holds (checking ∷ ws) b h = absurd cc
    nobody_holds (fetching ∷ ws) b h = absurd cc
    nobody_holds (sweeping n e ∷ ws) b h = absurd cc
    nobody_holds (finding r ∷ ws) b h = absurd cc
    nobody_holds (stopping ∷ ws) b h = absurd cc
    nobody_holds (returned ∷ ws) b (inl h) = absurd h
    nobody_holds (returned ∷ ws) b (inr h) = nobody_holds ws b h

    pub first-Reason :
        (w : Worker) (s : Shared)
        → is_returned w ≡ true
        → Reason hash_of target nonce_end m s w
        → (m < s.next_nonce) ⊎ (is_some s.found ≡ true)
    unfolding is_returned
    first-Reason returned s b r = r
    first-Reason checking s b r = absurd cc
    first-Reason fetching s b r = absurd cc
    first-Reason (sweeping n e) s b r = absurd cc
    first-Reason (finding q) s b r = absurd cc
    first-Reason stopping s b r = absurd cc

    -- When all have returned, a nonce that passes has led to a find.
    pub joined_found :
        (ws : List Worker) (s : Shared)
        → all_returned ws ≡ true
        → Kept ws s
        → is_some s.found ≡ true
    unfolding all_returned
    joined_found [] s b k = let some_thread = k.some_thread in absurd (omega arith)
    joined_found (w ∷ ws) s b k = elim k.seen [
      | inl (inr f) ↦ f
      | inr h ↦ absurd (nobody_holds (w ∷ ws) (unfold all_returned in b) h)
      | inl (inl late) ↦ elim (first-Reason w s (ground arith) k.reasons.0) [
        | inl past ↦ absurd (omega arith)
        | inr f ↦ f
      ]
    ]
