-- ===== src/CpuBackend/Sound.antt =====
-- src/backends/cpu.rs: what a sweep finds, under every schedule.
use csd_mining_pool_public.Prelude.{
  ℕ, zero, suc, ◌+◌, ◌^◌, ◌≤◌, ◌<◌, ◌≡◌, refl, sym, ap, ◌∙◌, Bool, true, false, Option, some, none,
  List, [], ◌∷◌, length, replicate, if◌then◌else◌, leb, ltb, arith, All, Bool-cases, tests,
  length-replicate, subst, ◌||◌, inl, inr,
}
use csd_mining_pool_public.CpuBackend.Order.{Below, count_returned-le, length-step, step-Below}
use csd_mining_pool_public.Sha.{Sha2, sha256d}
use csd_mining_pool_public.Target.{hash_leq_target}
use csd_mining_pool_public.Launch.{with_nonce}
use csd_mining_pool_public.Launch.Sweep.{nonce_hash_lem}
use csd_mining_pool_public.CpuBackend.Shared.{
  MiningResult, Shared, Worker, checking, fetching, sweeping, finding, stopping, returned,
  all_returned, worker_step, step, run, shared_at, hash_at, hash_range, or_insert,
}

-- A result that one may submit: a nonce of the range whose hash passes.
pub record IsFind (hash_of : ℕ → List ℕ) (target : List ℕ) (nonce_start nonce_end : ℕ)
    (r : MiningResult) : Type 0 where
  pub from_start : nonce_start ≤ r.nonce
  pub before_end : r.nonce < nonce_end
  pub hash_is : hash_of r.nonce ≡ r.hash
  pub passes : hash_leq_target (hash_of r.nonce) target ≡ true

module _ (hash_of : ℕ → List ℕ) (target : List ℕ) (nonce_start nonce_end : ℕ) where
  abbrev SoundWorker : Worker → Type 0
  SoundWorker (sweeping n e) = (nonce_start ≤ n) × (e ≤ nonce_end)
  SoundWorker (finding r) = IsFind hash_of target nonce_start nonce_end r
  SoundWorker _ = Unit

  abbrev SoundFound : Option MiningResult → Type 0
  SoundFound none = Unit
  SoundFound (some r) = IsFind hash_of target nonce_start nonce_end r

  abbrev Sound : Shared → Type 0
  Sound s = (nonce_start ≤ s.next_nonce) × SoundFound s.found

  or_insert_sound :
      (o : Option MiningResult) (r : MiningResult)
      → SoundFound o
      → IsFind hash_of target nonce_start nonce_end r
      → SoundFound (or_insert o r)
  unfolding or_insert
  or_insert_sound none r h f = f
  or_insert_sound (some q) r h f = h

  fetched :
      (c : Bool) (s : Shared)
      → Sound s
      → s.next_nonce + 4096 < 2 ^ 64
      → SoundWorker (worker_step hash_of target nonce_end c fetching s).0
        × Sound (worker_step hash_of target nonce_end c fetching s).1
  unfolding worker_step
  fetched c s h fits = elim (Bool-cases (leb nonce_end s.next_nonce)) [
    | inl spent ↦ rw spent (tt, (omega arith, h.1))
    | inr more ↦ rw more ((omega arith, omega arith), (omega arith, h.1))
  ]

  worker_step-Sound :
      (c : Bool) (w : Worker) (s : Shared)
      → SoundWorker w
      → Sound s
      → s.next_nonce + 4096 < 2 ^ 64
      → SoundWorker (worker_step hash_of target nonce_end c w s).0
        × Sound (worker_step hash_of target nonce_end c w s).1
  unfolding worker_step
  worker_step-Sound c checking s v h fits = elim (Bool-cases (c || s.local_stop)) [
    | inl stop ↦ rw stop (tt, h)
    | inr go ↦ rw go (tt, h)
  ]
  worker_step-Sound c fetching s v h fits = fetched c s h fits
  worker_step-Sound c (sweeping n e) s v h fits = elim (Bool-cases (ltb n e)) [
    | inr done ↦ rw done (tt, h)
    | inl more ↦ elim (Bool-cases (hash_leq_target (hash_of n) target)) [
      | inr miss ↦ rw (more, miss) ((omega arith, v.1), h)
      | inl pass ↦
          rw (more, pass)
            (
              record {
                from_start = v.0;
                before_end = omega (tests, v.1);
                hash_is = refl;
                passes = pass;
              },
              h,
            )
    ]
  ]
  worker_step-Sound c (finding r) s v h fits = (tt, (h.0, or_insert_sound s.found r h.1 v))
  worker_step-Sound c stopping s v h fits = (tt, h)
  worker_step-Sound c returned s v h fits = (tt, h)

  pub step-Sound :
      (i : ℕ) (c : Bool) (ws : List Worker) (s : Shared)
      → All SoundWorker ws
      → Sound s
      → s.next_nonce + 4096 < 2 ^ 64
      → All SoundWorker (step hash_of target nonce_end i c ws s).0
        × Sound (step hash_of target nonce_end i c ws s).1
  unfolding step
  step-Sound i c [] s v h fits = (tt, h)
  step-Sound zero c (w ∷ ws) s v h fits =
      let (v', h') = worker_step-Sound c w s v.0 h fits in ((v', v.1), h')
  step-Sound (suc i) c (w ∷ ws) s v h fits =
      let (v', h') = step-Sound i c ws s v.1 h fits in ((v.0, v'), h')

  run-Sound :
      (schedule : List (ℕ × Bool)) (ws : List Worker) (s : Shared)
      → nonce_end < 2 ^ 32
      → length ws < 2 ^ 50
      → Below hash_of target nonce_end 0 ws s
      → All SoundWorker ws
      → Sound s
      → Sound (run hash_of target nonce_end schedule ws s).1
  unfolding run
  run-Sound [] ws s small few below v h = h
  run-Sound ((i, c) ∷ schedule) ws s small few below v h =
      let after = step hash_of target nonce_end i c ws s in
      let (v', h') = step-Sound i c ws s v h (omega (arith, count_returned-le ws)) in
      run-Sound schedule after.0 after.1 small
        (omega (arith, length-step hash_of target nonce_end i c ws s))
        (step-Below hash_of target nonce_end i c 0 ws s small (omega arith) below) v' h'

start_sound :
    (hash_of : ℕ → List ℕ) (target : List ℕ) (nonce_start nonce_end threads : ℕ)
    → All (SoundWorker hash_of target nonce_start nonce_end) (replicate threads checking)
start_sound hash_of target nonce_start nonce_end zero = tt
start_sound hash_of target nonce_start nonce_end (suc threads) =
    (tt, start_sound hash_of target nonce_start nonce_end threads)

hash_range_opens :
    (b c : Bool) (found : Option MiningResult) (r : MiningResult)
    → (if b then some none else if c then some found else none) ≡ some (some r)
    → found ≡ some r
hash_range_opens true c found r h = absurd cc
hash_range_opens false true found r h = cc
hash_range_opens false false found r h = absurd cc

-- Whatever the schedule and the flags that the threads read, a result of the sweep of an 84-byte
-- header is a nonce of the range, with the double hash of the header with that nonce, and that
-- hash passes the target; the range ends below 2 ^ 32 and there are fewer than 2 ^ 50 threads.
pub hash_range_found :
    (sha2 : Sha2) (threads : ℕ) (header target : List ℕ) (nonce_start nonce_end : ℕ)
    (schedule : List (ℕ × Bool)) (r : MiningResult)
    → length header ≡ 84
    → nonce_start ≤ nonce_end
    → nonce_end < 2 ^ 32
    → threads < 2 ^ 50
    → hash_range sha2 threads header target nonce_start nonce_end schedule ≡ some (some r)
    → (nonce_start ≤ r.nonce)
      × (r.nonce < nonce_end)
      × (r.hash ≡ sha256d sha2 (with_nonce header r.nonce))
      × (hash_leq_target r.hash target ≡ true)
unfolding hash_range
hash_range_found sha2 threads header target nonce_start nonce_end schedule r long some_nonce small
      few h =
    let ws = replicate threads checking in
    let s = shared_at nonce_start in
    let hash_of = hash_at sha2 header in
    let below : Below hash_of target nonce_end 0 ws s = omega arith in
    let (low, sound) =
      run-Sound hash_of target nonce_start nonce_end schedule ws s small
        (omega (arith, length-replicate threads checking)) below
        (start_sound hash_of target nonce_start nonce_end threads) (omega arith, tt) in
    let found =
      hash_range_opens (leb nonce_end nonce_start)
        (all_returned (run hash_of target nonce_end schedule ws s).0)
        (run hash_of target nonce_end schedule ws s).1.found r h in
    let f : IsFind hash_of target nonce_start nonce_end r =
      subst (SoundFound hash_of target nonce_start nonce_end) found sound in
    let same : hash_of r.nonce ≡ sha256d sha2 (with_nonce header r.nonce) =
      unfold hash_at in nonce_hash_lem sha2 header r.nonce long in
    (
      f.from_start,
      f.before_end,
      sym f.hash_is ∙ same,
      ap (λ t. hash_leq_target t target) (sym f.hash_is) ∙ f.passes,
    )
