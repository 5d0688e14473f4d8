-- ===== src/CpuBackend/Complete.antt =====
-- src/backends/cpu.rs: a sweep that is not cancelled looks at every nonce, under every schedule.
use csd_mining_pool_public.Prelude.{
  ℕ, zero, suc, ◌^◌, ◌≤◌, ◌<◌, ◌≡◌, refl, sym, ap, ◌∙◌, inl, inr, Bool, true, false, Option, some,
  none, List, length, replicate, length-replicate, if◌then◌else◌, leb, arith, All, Bool-cases,
}
use csd_mining_pool_public.Sha.{Sha2, sha256d}
use csd_mining_pool_public.Target.{hash_leq_target}
use csd_mining_pool_public.Launch.{with_nonce}
use csd_mining_pool_public.Launch.Sweep.{nonce_hash_lem}
use csd_mining_pool_public.CpuBackend.Thread.{is_some, Uncancelled, Reason}
use csd_mining_pool_public.CpuBackend.Kept.{Kept, run-Kept, joined_found}
use csd_mining_pool_public.CpuBackend.Shared.{
  MiningResult, checking, all_returned, run, shared_at, hash_at, hash_range,
}

leb_above : (a b : ℕ) → b < a → leb a b ≡ false
leb_above a b h = ground arith

start_reasons :
    (hash_of : ℕ → List ℕ) (target : List ℕ) (nonce_end m nonce_start threads : ℕ)
    → All (Reason hash_of target nonce_end m (shared_at nonce_start)) (replicate threads checking)
start_reasons hash_of target nonce_end m nonce_start zero = tt
start_reasons hash_of target nonce_end m nonce_start (suc threads) =
    (tt, start_reasons hash_of target nonce_end m nonce_start threads)

hash_range_none :
    (b c : Bool) (found : Option MiningResult)
    → b ≡ false
    → (if b then some none else if c then some found else none) ≡ some none
    → (c ≡ true) × (is_some found ≡ false)
hash_range_none true c found e h = absurd cc
hash_range_none false true none e h = (refl, refl)
hash_range_none false true (some r) e h = absurd cc
hash_range_none false false found e h = absurd cc

module _ (sha2 : Sha2) (header target : List ℕ) (nonce_start nonce_end threads m : ℕ) where
  start-Kept :
      nonce_start ≤ m
      → (inside : m < nonce_end) → (hit : hash_leq_target (hash_at sha2 header m) target ≡ true)
      → 0 < threads
      → threads < 2 ^ 50
      → Kept
          (hash_at sha2 header)
          target
          nonce_end
          m
          inside
          hit
          (replicate threads checking)
          (shared_at nonce_start)
  start-Kept low inside hit some_thread few = record {
    some_thread = omega (arith, length-replicate threads checking);
    few = omega (arith, length-replicate threads checking);
    below = omega arith;
    stops = inl refl;
    reasons = start_reasons (hash_at sha2 header) target nonce_end m nonce_start threads;
    seen = inl (inl low);
  }

-- A sweep of an 84-byte header by one thread or more that joins with no result and was never
-- cancelled has left out no nonce: none of the range is a share of the header, whatever the
-- schedule; the range ends below 2 ^ 32 and there are fewer than 2 ^ 50 threads.
pub hash_range-none :
    (sha2 : Sha2) (threads : ℕ) (header target : List ℕ) (nonce_start nonce_end : ℕ)
    (schedule : List (ℕ × Bool)) (m : ℕ)
    → length header ≡ 84
    → nonce_end < 2 ^ 32
    → 0 < threads
    → threads < 2 ^ 50
    → Uncancelled schedule
    → hash_range sha2 threads header target nonce_start nonce_end schedule ≡ some none
    → nonce_start ≤ m
    → m < nonce_end
    → hash_leq_target (sha256d sha2 (with_nonce header m)) target ≡ false
unfolding hash_range
hash_range-none sha2 threads header target nonce_start nonce_end schedule m long small some_thread
      few u h low inside =
    let hash_of = hash_at sha2 header in
    let end =
      run hash_of target nonce_end schedule (replicate threads checking) (shared_at nonce_start) in
    let same : hash_of m ≡ sha256d sha2 (with_nonce header m) =
      unfold hash_at in nonce_hash_lem sha2 header m long in
    let (joined, empty) =
      hash_range_none (leb nonce_end nonce_start) (all_returned end.0) end.1.found
        (leb_above nonce_end nonce_start (omega arith)) h in
    elim (Bool-cases (hash_leq_target (hash_of m) target)) [
      | inr miss ↦ ap (λ t. hash_leq_target t target) (sym same) ∙ miss
      | inl hit ↦
          let kept =
            run-Kept hash_of target nonce_end m inside hit schedule (replicate threads checking)
              (shared_at nonce_start) small u
              (start-Kept sha2 header target nonce_start nonce_end threads m low inside hit
                some_thread few) in
          let full = joined_found hash_of target nonce_end m inside hit end.0 end.1 joined kept in
          absurd cc
    ]
