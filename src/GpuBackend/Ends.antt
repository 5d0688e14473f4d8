-- ===== src/GpuBackend/Ends.antt =====
-- src/backends/cuda.rs: the sweep of the GPU returns.
use csd_mining_pool_public.Prelude.{
  ℕ, zero, suc, ◌+◌, ◌-◌, ◌*◌, ◌^◌, ◌<◌, ◌≡◌, refl, sym, ◌∙◌, inl, inr, Bool, true, false, Option,
  none, some, min, arith, Bool-cases, Option-cases, leb, subst,
}
use csd_mining_pool_public.Prelude.Results.{ok, err}
use csd_mining_pool_public.Mining.Sweeps.{Outcome}
use csd_mining_pool_public.GpuBackend.{
  Device, Geometry, nonces_per_launch, Pipes, Stepped, return, again, is_idle, cuda_launch,
  sweep_step, sweep_loop, gpu_hash_range, cuda_hash_range,
}
use csd_mining_pool_public.GpuBackend.Turns.{
  Rest, faulted, started, waited, spent, cuda_launch_cases, Turned, found, fault, clean, turn_cases,
  loop_return, loop_again, gpu_hash_range-sweep_loop,
}

-- A launch in flight costs two turns at most, and a turn may look at the idle pipe first.
abbrev flight : Option ℕ → ℕ
flight none = 0
flight (some start) = 2

abbrev misses : Option ℕ → Option ℕ → ℕ
misses none (some start) = 1
misses _ _ = 0

-- What is left to do, in turns.
abbrev left : ℕ → Pipes → ℕ
left nonce_end p =
    4 * (nonce_end - p.next_start) + flight p.current + flight p.other + misses p.current p.other

abbrev Less : ℕ → Pipes → Stepped → Type 0
Less nonce_end p (return o) = Unit
Less nonce_end p (again q) = left nonce_end q < left nonce_end p

start_less :
    (k l : ℕ) (c o : Option ℕ)
    → l < k
    → 4 * l + flight o + 2 + misses o (some 0) < 4 * k + flight c + flight o + misses c o
start_less k l none none h = omega arith
start_less k l none (some o) h = omega arith
start_less k l (some c) none h = omega arith
start_less k l (some c) (some o) h = omega arith

wait_less :
    (k : ℕ) (c o : Option ℕ)
    → is_idle o ≡ false
    → 4 * k + flight o + 0 + misses o none < 4 * k + flight c + flight o + misses c o
unfolding is_idle
wait_less k c none h = absurd cc
wait_less k none (some o) h = omega arith
wait_less k (some c) (some o) h = omega arith

misses_any : (o : Option ℕ) (a b : ℕ) → misses o (some a) ≡ misses o (some b)
misses_any none a b = refl
misses_any (some o) a b = refl

module _ (dev : Device) (per_launch nonce_end : ℕ) (some_nonce : 0 < per_launch)
    (small : nonce_end < 2 ^ 32) where
  abbrev launch : Pipes → Stepped
  launch = cuda_launch dev per_launch nonce_end

  Rest-Less : (p : Pipes) (s : Stepped) → Rest dev per_launch nonce_end p s → Less nonce_end p s
  Rest-Less p s (faulted e eq) = subst (Less nonce_end p) (sym eq) tt
  Rest-Less p s (spent done idle eq) = subst (Less nonce_end p) (sym eq) tt
  Rest-Less p s (waited done busy eq) =
      subst (Less nonce_end p) (sym eq)
        (omega (arith, wait_less (nonce_end - p.next_start) p.current p.other busy))
  Rest-Less p s (started more eq) = subst (Less nonce_end p) (sym eq) (
      omega (
        arith,
        misses_any p.other 0 p.next_start,
        start_less (nonce_end - p.next_start)
            (nonce_end - (p.next_start + min per_launch (nonce_end - p.next_start))) p.current
            p.other (omega arith),
      ))

  step-Less :
      (p : Pipes)
      → Turned dev per_launch nonce_end launch p
      → Less nonce_end p (sweep_step dev per_launch nonce_end launch false p)
  step-Less p (found r at eq) = subst (Less nonce_end p) (sym eq) tt
  step-Less p (fault e eq) = subst (Less nonce_end p) (sym eq) tt
  step-Less p (clean at eq) =
      subst (Less nonce_end p) (sym eq)
        (Rest-Less p (launch p) (cuda_launch_cases dev per_launch nonce_end some_nonce small p))

  stop_step : (p : Pipes) → sweep_step dev per_launch nonce_end launch true p ≡ return (ok none)
  unfolding sweep_step
  stop_step p = refl

  loop_returns :
      (fuel i : ℕ) (p : Pipes) (cancelled : ℕ → Bool)
      → left nonce_end p < fuel
      → (o : Outcome) × (sweep_loop dev per_launch nonce_end launch cancelled fuel i p ≡ some o)
  loop_returns zero i p cancelled h = absurd (omega arith)
  loop_returns (suc fuel) i p cancelled h = elim (Bool-cases (cancelled i)) [
    | inl stop ↦ (
      ok none,
      loop_return dev per_launch nonce_end launch cancelled fuel i p true stop (ok none)
          (stop_step p),
    )
    | inr go ↦
        by_step (sweep_step dev per_launch nonce_end launch false p) go refl
          (step-Less p (turn_cases dev per_launch nonce_end launch p))
          (λ q lt. loop_returns fuel (i + 1) q cancelled (omega arith))
  ]
    where
      by_step :
          (s : Stepped)
          → cancelled i ≡ false
          → sweep_step dev per_launch nonce_end launch false p ≡ s
          → Less nonce_end p s
          → ((q : Pipes)
              → left nonce_end q < left nonce_end p
              → (o : Outcome) × (sweep_loop dev per_launch nonce_end launch cancelled fuel (i + 1) q
                  ≡ some o))
          → (o : Outcome) × (sweep_loop dev per_launch nonce_end launch cancelled (suc fuel) i p
              ≡ some o)
      by_step (return o) go e lt later =
          (o, loop_return dev per_launch nonce_end launch cancelled fuel i p false go o e)
      by_step (again q) go e lt later =
          let (o, done) = later q lt in
          (o, loop_again dev per_launch nonce_end launch cancelled fuel i p false go q e ∙ done)

-- Whatever the device answers and whatever flags the turns read, the sweep of the CUDA backend
-- returns within four turns for each nonce of the range and one more: a launch sweeps at least one
-- nonce and the range ends below 2 ^ 32.
pub cuda_hash_range_returns :
    (dev : Device) (g : Geometry) (cancelled : ℕ → Bool) (fuel nonce_start nonce_end : ℕ)
    → 0 < nonces_per_launch g
    → nonce_end < 2 ^ 32
    → 4 * (nonce_end - nonce_start) < fuel
    → (o : Outcome) × (cuda_hash_range dev g cancelled fuel nonce_start nonce_end ≡ some o)
unfolding cuda_hash_range
cuda_hash_range_returns dev g cancelled fuel nonce_start nonce_end some_nonce small enough =
    elim (Bool-cases (leb nonce_end nonce_start)) [
      | inl empty ↦ (ok none, unfold gpu_hash_range in rw empty refl)
      | inr more ↦ elim (Option-cases dev.setup) [
        | inr (e, failed) ↦ (err e, unfold gpu_hash_range in simp (more, failed))
        | inl ready ↦
            let (o, done) =
              loop_returns dev (nonces_per_launch g) nonce_end some_nonce small fuel 0
                (record { current = none; other = none; next_start = nonce_start }) cancelled
                (omega arith) in
            (
              o,
              gpu_hash_range-sweep_loop dev (nonces_per_launch g) nonce_end
                    (cuda_launch dev (nonces_per_launch g) nonce_end) cancelled fuel nonce_start
                    more ready
                  ∙ done,
            )
      ]
    ]
