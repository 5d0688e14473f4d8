-- ===== src/GpuBackend/Same.antt =====
-- src/backends/cuda.rs and src/backends/opencl.rs: the two loops against each other.
use csd_mining_pool_public.Prelude.{
  ℕ, zero, suc, ◌+◌, ◌-◌, ◌<◌, ◌≡◌, refl, ap, inl, inr, Bool, true, false, not, Option, none, some,
  min, arith, ltb, leb, ltb→lt, lt→ltb, Bool-cases, Option-cases, subst, if◌then◌else◌,
}
use csd_mining_pool_public.Prelude.Results.{Result, ok, err}
use csd_mining_pool_public.Mining.Sweeps.{DeviceError, Outcome}
use csd_mining_pool_public.GpuBackend.{
  Device, Readout, Geometry, nonces_per_launch, Pipes, Stepped, return, again, is_idle, drain_pipe,
  drained, launched, exchanged, cuda_launch, sweep_step, sweep_loop, gpu_hash_range,
  cuda_hash_range,
}
use csd_mining_pool_public.GpuBackend.Opencl.{
  PipePair, PairStep, finish, go_on, pick_pipe, set_pipe, opencl_drain_pipe, drain_result, enqueued,
  not_launched, launch_next, on_drained, pair_step, pair_loop, pipes_at, opencl_sweep, outcome_of,
  opencl_hash_range,
}

-- The pipes of OpenCL, as CUDA's current one and the other.
abbrev view : PipePair → Pipes
view p = record {
  current = pick_pipe p.current_pipe p;
  other = pick_pipe (not p.current_pipe) p;
  next_start = p.next_start;
}

-- Nothing is in flight after a find.
abbrev pub Quiet : Outcome → PipePair → Type 0
Quiet (ok (some r)) p = (p.a ≡ none) × (p.b ≡ none)
Quiet _ p = Unit

-- The two turns do the same.
abbrev Matches : PairStep → Stepped → Type 0
Matches (finish o p) (return q) = (o ≡ q) × Quiet o p
Matches (go_on p) (again q) = view p ≡ q
Matches _ _ = ⊥

drains_same : (r : Result DeviceError Readout) → opencl_drain_pipe r ≡ drain_pipe r
unfolding opencl_drain_pipe drain_pipe
drains_same (err e) = refl
drains_same (ok r) = refl

-- OpenCL looks whether the pipes are idle after every turn that did not launch, CUDA only once the
-- range is spent; while it is not, a launch has some nonces.
branches_same :
    (more sized : Bool) (s t : PairStep) (q r w : Stepped)
    → (more ≡ true → sized ≡ true)
    → Matches s q
    → Matches t w
    → Matches
        (if more then if sized then s else t else t)
        (if more then if sized then q else r else w)
branches_same true true s t q r w h m k = m
branches_same true false s t q r w h m k = let wrong : false ≡ true = h refl in absurd (cc wrong)
branches_same false sized s t q r w h m k = k

-- The sweeps agree, and nothing is in flight after a find.
abbrev Agrees : Option (Outcome × PipePair) → Option Outcome → Type 0
Agrees none none = Unit
Agrees (some (o, p)) (some q) = (o ≡ q) × Quiet o p
Agrees _ _ = ⊥

-- A sweep of OpenCL that has found something has nothing in flight.
abbrev pub FindsDrained : Option (Outcome × PipePair) → Type 0
FindsDrained none = Unit
FindsDrained (some (o, p)) = Quiet o p

agreed :
    (s : Option (Outcome × PipePair)) (t : Option Outcome)
    → Agrees s t
    → (outcome_of s ≡ t) × FindsDrained s
unfolding outcome_of
agreed none none h = (refl, tt)
agreed none (some q) h = absurd h
agreed (some (o, p)) none h = absurd h
agreed (some (o, p)) (some q) h = (ap some h.0, h.1)

-- The pipes with the current one drained.
abbrev dry : Bool → Option ℕ → ℕ → PipePair
dry false o n = record { a = none; b = o; current_pipe = false; next_start = n }
dry true o n = record { a = o; b = none; current_pipe = true; next_start = n }

module _ (dev : Device) (per_launch nonce_end : ℕ) (some_nonce : 0 < per_launch) where
  drain_result-drained :
      (o : Option ℕ) → drain_result dev per_launch nonce_end o ≡ drained dev per_launch nonce_end o
  unfolding drain_result drained
  drain_result-drained none = refl
  drain_result-drained (some start) = drains_same (dev.readout start)

  enqueued_same :
      (which : Bool) (x o : Option ℕ) (n size : ℕ) (e : Option DeviceError)
      → Matches (enqueued dev per_launch nonce_end e size (dry which o n)) (
          launched dev per_launch nonce_end e size
            (record { current = x; other = o; next_start = n }))
  unfolding enqueued launched set_pipe pick_pipe
  enqueued_same false x o n size (some e) = (refl, tt)
  enqueued_same true x o n size (some e) = (refl, tt)
  enqueued_same false x o n size none = refl
  enqueued_same true x o n size none = refl

  exchanged_same :
      (which : Bool) (x o : Option ℕ) (n : ℕ)
      → Matches (not_launched dev per_launch nonce_end (dry which o n)) (
          if is_idle o
          then return (ok none)
          else exchanged dev per_launch nonce_end
              (record { current = x; other = o; next_start = n }))
  unfolding not_launched exchanged pick_pipe is_idle
  exchanged_same false x none n = (refl, tt)
  exchanged_same true x none n = (refl, tt)
  exchanged_same false x (some o) n = refl
  exchanged_same true x (some o) n = refl

  some_size : (n : ℕ) → ltb n nonce_end ≡ true → ltb 0 (min per_launch (nonce_end - n)) ≡ true
  some_size n more =
      lt→ltb 0 (min per_launch (nonce_end - n)) (omega (arith, ltb→lt n nonce_end more))

  launches_same :
      (which : Bool) (x o : Option ℕ) (n : ℕ)
      → Matches
          (launch_next dev per_launch nonce_end (dry which o n))
          (cuda_launch dev per_launch nonce_end (record { current = x; other = o; next_start = n }))
  unfolding launch_next cuda_launch
  launches_same false x o n =
      branches_same (ltb n nonce_end) (ltb 0 (min per_launch (nonce_end - n))) _ _ _ _ _
        (some_size n)
        (enqueued_same false x o n (min per_launch (nonce_end - n)) (dev.start_launch n nonce_end))
        (exchanged_same false x o n)
  launches_same true x o n =
      branches_same (ltb n nonce_end) (ltb 0 (min per_launch (nonce_end - n))) _ _ _ _ _
        (some_size n)
        (enqueued_same true x o n (min per_launch (nonce_end - n)) (dev.start_launch n nonce_end))
        (exchanged_same true x o n)

  abbrev launch : Pipes → Stepped
  launch = cuda_launch dev per_launch nonce_end

  -- What a drain of the current pipe leads to.
  drained_same :
      (which : Bool) (x o : Option ℕ) (n : ℕ) (r : Outcome)
      → Matches (on_drained dev per_launch nonce_end r (dry which o n)) (elim r [
        | err e ↦ return (err e)
        | ok (some found) ↦ return (ok (some found))
        | ok none ↦ launch (record { current = x; other = o; next_start = n })
      ])
  unfolding on_drained set_pipe
  drained_same which x o n (err e) = (refl, tt)
  drained_same false x o n (ok (some found)) = (refl, (refl, refl))
  drained_same true x o n (ok (some found)) = (refl, (refl, refl))
  drained_same which x o n (ok none) = launches_same which x o n

  step_same :
      (which : Bool) (a b : Option ℕ) (n : ℕ) (cancelled : Bool)
      → Matches
          (pair_step dev per_launch nonce_end cancelled
            (record { a = a; b = b; current_pipe = which; next_start = n }))
          (sweep_step dev per_launch nonce_end launch cancelled
            (view (record { a = a; b = b; current_pipe = which; next_start = n })))
  unfolding pair_step sweep_step pick_pipe set_pipe
  step_same which a b n true = (refl, tt)
  step_same false a b n false =
      rw (drain_result-drained a) (drained_same false a b n (drained dev per_launch nonce_end a))
  step_same true a b n false =
      rw (drain_result-drained b) (drained_same true b a n (drained dev per_launch nonce_end b))

  after_step :
      (s : PairStep) (t : Stepped) (later : PipePair → Option (Outcome × PipePair))
      (later_cuda : Pipes → Option Outcome)
      → Matches s t
      → ((p : PipePair) → Agrees (later p) (later_cuda (view p)))
      → Agrees
          (elim s [ finish o left ↦ some (o, left) | go_on next ↦ later next ])
          (elim t [ return o ↦ some o | again next ↦ later_cuda next ])
  after_step (finish o p) (return q) later later_cuda m h = m
  after_step (finish o p) (again q) later later_cuda m h = absurd m
  after_step (go_on p) (return q) later later_cuda m h = absurd m
  after_step (go_on p) (again q) later later_cuda m h =
      subst (λ r. Agrees (later p) (later_cuda r)) m (h p)

  loops_same :
      (cancelled : ℕ → Bool) (fuel i : ℕ) (p : PipePair)
      → Agrees
          (pair_loop dev per_launch nonce_end cancelled fuel i p)
          (sweep_loop dev per_launch nonce_end launch cancelled fuel i (view p))
  unfolding pair_loop sweep_loop
  loops_same cancelled zero i p = tt
  loops_same cancelled (suc fuel) i p =
      after_step (pair_step dev per_launch nonce_end (cancelled i) p)
        (sweep_step dev per_launch nonce_end launch (cancelled i) (view p))
        (pair_loop dev per_launch nonce_end cancelled fuel (i + 1))
        (sweep_loop dev per_launch nonce_end launch cancelled fuel (i + 1))
        (step_same p.current_pipe p.a p.b p.next_start (cancelled i))
        (loops_same cancelled fuel (i + 1))

sweeps_agree :
    (dev : Device) (g : Geometry) (cancelled : ℕ → Bool) (fuel nonce_start nonce_end : ℕ)
    → 0 < nonces_per_launch g
    → Agrees
        (opencl_sweep dev g cancelled fuel nonce_start nonce_end)
        (cuda_hash_range dev g cancelled fuel nonce_start nonce_end)
unfolding opencl_sweep cuda_hash_range gpu_hash_range
sweeps_agree dev g cancelled fuel nonce_start nonce_end some_nonce =
    elim (Bool-cases (leb nonce_end nonce_start)) [
      | inl empty ↦ rw empty (refl, tt)
      | inr more ↦ elim (Option-cases dev.setup) [
        | inr (e, failed) ↦ rw (more, failed) (refl, tt)
        | inl ready ↦
            rw (more, ready)
              (loops_same dev (nonces_per_launch g) nonce_end some_nonce cancelled fuel 0
                (pipes_at nonce_start))
      ]
    ]

-- On the same answers of the device, the same flags and the same fuel, the loop of OpenCL over its
-- pipes a and b gives the outcome of CUDA's loop, and after a find nothing is in flight on its
-- pipes; a launch sweeps at least one nonce.
pub opencl_hash_range-cuda_hash_range :
    (dev : Device) (g : Geometry) (cancelled : ℕ → Bool) (fuel nonce_start nonce_end : ℕ)
    → 0 < nonces_per_launch g
    → (opencl_hash_range dev g cancelled fuel nonce_start nonce_end
        ≡ cuda_hash_range dev g cancelled fuel nonce_start nonce_end)
      × FindsDrained (opencl_sweep dev g cancelled fuel nonce_start nonce_end)
unfolding opencl_hash_range
opencl_hash_range-cuda_hash_range dev g cancelled fuel nonce_start nonce_end some_nonce =
    agreed (opencl_sweep dev g cancelled fuel nonce_start nonce_end)
      (cuda_hash_range dev g cancelled fuel nonce_start nonce_end)
      (sweeps_agree dev g cancelled fuel nonce_start nonce_end some_nonce)
