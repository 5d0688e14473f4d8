-- ===== src/CpuBackend/Thread.antt =====
-- src/backends/cpu.rs: one step of a thread, for a nonce of the range that passes.
use csd_mining_pool_public.Prelude.{
  ℕ, ◌+◌, ◌^◌, ◌≤◌, ◌<◌, ◌≡◌, refl, ◌⊎◌, inl, inr, Bool, true, false, Option, some, none, List, [],
  ◌∷◌, leb, ltb, arith, tests, All, Bool-cases,
}
use csd_mining_pool_public.Target.{hash_leq_target}
use csd_mining_pool_public.CpuBackend.Shared.{
  MiningResult, Shared, Worker, checking, fetching, sweeping, finding, stopping, returned,
  worker_step, or_insert,
}

abbrev pub is_some : Option MiningResult → Bool
is_some none = false
is_some (some r) = true

-- No thread reads `stop` or `new_job` as set.
abbrev pub Uncancelled : List (ℕ × Bool) → Type 0
Uncancelled = All (λ e. e.1 ≡ false)

is_some-or_insert : (o : Option MiningResult) (r : MiningResult) → is_some (or_insert o r) ≡ true
unfolding or_insert
is_some-or_insert none r = refl
is_some-or_insert (some q) r = refl

-- One nonce `m` of the range that passes.
module _ (hash_of : ℕ → List ℕ) (target : List ℕ) (nonce_end m : ℕ) where
  -- Still to be fetched, or no longer needed.
  abbrev pub Open : Shared → Type 0
  Open s = (s.next_nonce ≤ m) ⊎ (is_some s.found ≡ true)

  -- A thread has `m` before it, or a find.
  abbrev pub Holds : Worker → Type 0
  Holds (sweeping n e) = (n ≤ m) × (m < e)
  Holds (finding r) = Unit
  Holds _ = ⊥

  abbrev pub SomeHolds : List Worker → Type 0
  SomeHolds [] = ⊥
  SomeHolds (w ∷ ws) = Holds w ⊎ SomeHolds ws

  -- Why a thread stopped.
  abbrev pub Reason : Shared → Worker → Type 0
  Reason s stopping = is_some s.found ≡ true
  Reason s returned = (m < s.next_nonce) ⊎ (is_some s.found ≡ true)
  Reason s _ = Unit

  abbrev pub StopsFound : Shared → Type 0
  StopsFound s = (s.local_stop ≡ false) ⊎ (is_some s.found ≡ true)

  abbrev pub Later : Shared → Shared → Type 0
  Later s s' =
      (s.next_nonce ≤ s'.next_nonce) × ((is_some s.found ≡ false) ⊎ (is_some s'.found ≡ true))

  module _ (inside : m < nonce_end) (hit : hash_leq_target (hash_of m) target ≡ true) where
    pub worker_step-Later :
        (w : Worker) (s : Shared)
        → s.next_nonce + 4096 < 2 ^ 64
        → Later s (worker_step hash_of target nonce_end false w s).1
    unfolding worker_step
    worker_step-Later checking s fits = ground arith
    worker_step-Later fetching s fits = ground arith
    worker_step-Later (sweeping n e) s fits = ground arith
    worker_step-Later (finding r) s fits = ground (arith, is_some-or_insert s.found r)
    worker_step-Later stopping s fits = ground arith
    worker_step-Later returned s fits = ground arith

    pub worker_step-Reason :
        (w : Worker) (s : Shared)
        → s.next_nonce + 4096 < 2 ^ 64
        → StopsFound s
        → Reason s w
        → Reason
            (worker_step hash_of target nonce_end false w s).1
            (worker_step hash_of target nonce_end false w s).0
          × StopsFound (worker_step hash_of target nonce_end false w s).1
    unfolding worker_step
    worker_step-Reason checking s fits st r = elim (Bool-cases s.local_stop) [
      | inl stop ↦ rw stop (ground arith)
      | inr go ↦ rw go (tt, inl refl)
    ]
    worker_step-Reason fetching s fits st r = elim (Bool-cases (leb nonce_end s.next_nonce)) [
      | inl spent ↦ rw spent (inl (omega tests), st)
      | inr more ↦ rw more (tt, st)
    ]
    worker_step-Reason (sweeping n e) s fits st r = elim (Bool-cases (ltb n e)) [
      | inr done ↦ rw done (tt, st)
      | inl more ↦ elim (Bool-cases (hash_leq_target (hash_of n) target)) [
        | inr miss ↦ rw (more, miss) (tt, st)
        | inl pass ↦ rw (more, pass) (tt, st)
      ]
    ]
    worker_step-Reason (finding r) s fits st _ =
        (is_some-or_insert s.found r, inr (is_some-or_insert s.found r))
    worker_step-Reason stopping s fits st r = (inr r, inr r)
    worker_step-Reason returned s fits st r = (r, st)

    pub worker_step-Holds :
        (w : Worker) (s : Shared)
        → s.next_nonce + 4096 < 2 ^ 64
        → Open s ⊎ Holds w
        → Open (worker_step hash_of target nonce_end false w s).1
          ⊎ Holds (worker_step hash_of target nonce_end false w s).0
    unfolding worker_step
    worker_step-Holds checking s fits h = elim (Bool-cases s.local_stop) [
      | inl stop ↦ rw stop h
      | inr go ↦ rw go h
    ]
    worker_step-Holds fetching s fits h = elim (Bool-cases (leb nonce_end s.next_nonce)) [
      | inl spent ↦ rw spent (ground arith)
      | inr more ↦ rw more (ground arith)
    ]
    worker_step-Holds (sweeping n e) s fits h = elim (Bool-cases (ltb n e)) [
      | inr done ↦ rw done (ground arith)
      | inl more ↦ elim (Bool-cases (hash_leq_target (hash_of n) target)) [
        | inr miss ↦ rw (more, miss) (ground arith)
        | inl pass ↦ rw (more, pass) (inr tt)
      ]
    ]
    worker_step-Holds (finding r) s fits h = inl (inr (is_some-or_insert s.found r))
    worker_step-Holds stopping s fits h = h
    worker_step-Holds returned s fits h = h

    pub Reason-Later : (s s' : Shared) (w : Worker) → Later s s' → Reason s w → Reason s' w
    Reason-Later s s' stopping l r = ground arith
    Reason-Later s s' returned l r = ground arith
    Reason-Later s s' checking l r = tt
    Reason-Later s s' fetching l r = tt
    Reason-Later s s' (sweeping n e) l r = tt
    Reason-Later s s' (finding q) l r = tt
