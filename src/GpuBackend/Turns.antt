-- ===== src/GpuBackend/Turns.antt =====
-- src/backends/cuda.rs and src/backends/opencl.rs: one turn of the loop, by what it does.
use csd_mining_pool_public.Prelude.{
  ℕ, suc, leb, ◌+◌, ◌-◌, ◌≤◌, ◌<◌, ◌≡◌, refl, inl, inr, Bool, true, false, Option, none, some, min,
  arith, Bool-cases, ltb, saturating_add_u64, ltb→lt, ltb→le, ◌^◌, lt→ltb,
}
use csd_mining_pool_public.Prelude.Results.{ok, err}
use csd_mining_pool_public.CpuBackend.{MiningResult}
use csd_mining_pool_public.Mining.Sweeps.{DeviceError, Outcome}
use csd_mining_pool_public.GpuBackend.{
  Device, Pipes, Stepped, return, again, is_idle, drained, launched, exchanged, cuda_launch,
  sweep_step, sweep_loop, gpu_hash_range,
}

module _ (dev : Device) (per_launch nonce_end : ℕ) where
  -- What is left of a turn whose current pipe is drained.
  pub data Rest (p : Pipes) (s : Stepped) : Type 0 where
    faulted : (e : DeviceError) → s ≡ return (err e) → Rest p s
    started :
        p.next_start < nonce_end
        → s
          ≡ again (record {
            current = p.other;
            other = some p.next_start;
            next_start = p.next_start + min per_launch (nonce_end - p.next_start);
          })
        → Rest p s
    waited :
        nonce_end ≤ p.next_start
        → is_idle p.other ≡ false
        → s ≡ again (record { current = p.other; other = none; next_start = p.next_start })
        → Rest p s
    spent : nonce_end ≤ p.next_start → is_idle p.other ≡ true → s ≡ return (ok none) → Rest p s

  module _ (some_nonce : 0 < per_launch) (small : nonce_end < 2 ^ 32) where
    launched_cases :
        (o : Option DeviceError) (p : Pipes)
        → p.next_start < nonce_end
        → Rest p (launched dev per_launch nonce_end o (min per_launch (nonce_end - p.next_start)) p)
    unfolding launched
    launched_cases (some e) p more = faulted e refl
    launched_cases none p more = started more (rw (no_overflow p more) refl)
      where
        no_overflow :
            (q : Pipes)
            → q.next_start < nonce_end
            → saturating_add_u64 q.next_start (min per_launch (nonce_end - q.next_start))
              ≡ q.next_start + min per_launch (nonce_end - q.next_start)
        no_overflow q h = omega arith

    pub cuda_launch_cases : (p : Pipes) → Rest p (cuda_launch dev per_launch nonce_end p)
    unfolding cuda_launch
    cuda_launch_cases p = elim (Bool-cases (ltb p.next_start nonce_end)) [
      | inl more ↦
          let lt = ltb→lt p.next_start nonce_end more in
          let size : ltb 0 (min per_launch (nonce_end - p.next_start)) ≡ true =
            lt→ltb 0 (min per_launch (nonce_end - p.next_start)) (omega (arith, lt)) in
          rw (more, size) (launched_cases (dev.start_launch p.next_start nonce_end) p lt)
      | inr done ↦ elim (Bool-cases (is_idle p.other)) [
        | inl idle ↦ spent (ltb→le p.next_start nonce_end done) idle (rw (done, idle) refl)
        | inr busy ↦
            waited (ltb→le p.next_start nonce_end done) busy
              (unfold exchanged in rw (done, busy) refl)
      ]
    ]

  -- A turn that is not cancelled.
  pub data Turned (launch : Pipes → Stepped) (p : Pipes) : Type 0 where
    found :
        (r : MiningResult)
        → drained dev per_launch nonce_end p.current ≡ ok (some r)
        → sweep_step dev per_launch nonce_end launch false p ≡ return (ok (some r))
        → Turned launch p
    fault :
        (e : DeviceError)
        → sweep_step dev per_launch nonce_end launch false p ≡ return (err e)
        → Turned launch p
    clean :
        drained dev per_launch nonce_end p.current ≡ ok none
        → sweep_step dev per_launch nonce_end launch false p ≡ launch p
        → Turned launch p

  by_drained :
      (launch : Pipes → Stepped) (p : Pipes) (o : Outcome)
      → drained dev per_launch nonce_end p.current ≡ o
      → Turned launch p
  unfolding sweep_step
  by_drained launch p (ok none) h = clean h (rw h refl)
  by_drained launch p (ok (some r)) h = found r h (rw h refl)
  by_drained launch p (err e) h = fault e (rw h refl)

  pub turn_cases : (launch : Pipes → Stepped) (p : Pipes) → Turned launch p
  turn_cases launch p = by_drained launch p (drained dev per_launch nonce_end p.current) refl

  -- A turn of the loop.
  module _ (launch : Pipes → Stepped) (cancelled : ℕ → Bool) (fuel i : ℕ) (p : Pipes) (b : Bool)
      (reads : cancelled i ≡ b) where
    pub loop_return :
        (o : Outcome)
        → sweep_step dev per_launch nonce_end launch b p ≡ return o
        → sweep_loop dev per_launch nonce_end launch cancelled (suc fuel) i p ≡ some o
    unfolding sweep_loop
    loop_return o e = rw (reads, e, sweep_loop) refl

    pub loop_again :
        (q : Pipes)
        → sweep_step dev per_launch nonce_end launch b p ≡ again q
        → sweep_loop dev per_launch nonce_end launch cancelled (suc fuel) i p
          ≡ sweep_loop dev per_launch nonce_end launch cancelled fuel (i + 1) q
    unfolding sweep_loop
    loop_again q e = rw (reads, e, sweep_loop) refl

  -- The sweep of a range that is not empty, once the device is set up.
  pub gpu_hash_range-sweep_loop :
      (launch : Pipes → Stepped) (cancelled : ℕ → Bool) (fuel nonce_start : ℕ)
      → leb nonce_end nonce_start ≡ false
      → dev.setup ≡ none
      → gpu_hash_range dev per_launch nonce_end launch cancelled fuel nonce_start
        ≡ sweep_loop dev per_launch nonce_end launch cancelled fuel 0
            (record { current = none; other = none; next_start = nonce_start })
  unfolding gpu_hash_range
  gpu_hash_range-sweep_loop launch cancelled fuel nonce_start more ready = simp (more, ready)
