-- ===== src/GpuBackend/Covers.antt =====
-- src/backends/cuda.rs: a sweep of the GPU that finds nothing.
use csd_mining_pool_public.Prelude.{
  ℕ, zero, suc, ◌+◌, ◌-◌, ◌^◌, ◌≤◌, ◌<◌, ◌≡◌, sym, ◌∙◌, ◌⊎◌, inl, inr, Bool, true, false, List,
  Option, none, some, min, arith, Bool-cases, Option-cases, leb,
}
use csd_mining_pool_public.Prelude.Results.{ok, err}
use csd_mining_pool_public.Sha.{Sha2, sha256d}
use csd_mining_pool_public.Target.{hash_leq_target}
use csd_mining_pool_public.Launch.{with_nonce}
use csd_mining_pool_public.CpuBackend.{MiningResult}
use csd_mining_pool_public.Mining.Sweeps.{DeviceError, Outcome}
use csd_mining_pool_public.GpuBackend.{
  Device, Geometry, nonces_per_launch, drain_pipe, Pipes, Stepped, is_idle, drained, cuda_launch,
  sweep_loop, gpu_hash_range, cuda_hash_range,
}
use csd_mining_pool_public.GpuBackend.Turns.{
  faulted, started, waited, spent, cuda_launch_cases, found, fault, clean, turn_cases, loop_return,
  loop_again, gpu_hash_range-sweep_loop,
}

-- What the host relies on of the kernel: a launch from `s` that reports no find has hashed its
-- window, up to the end of the range, and none of it is a share of the header.
pub record Sweeps (sha2 : Sha2) (header target : List ℕ) (dev : Device) (per_launch nonce_end : ℕ)
    : Type 0 where
  pub reports :
      (s m : ℕ)
      → drain_pipe (dev.readout s) ≡ ok none
      → s ≤ m
      → m < s + per_launch
      → m < nonce_end
      → hash_leq_target (sha256d sha2 (with_nonce header m)) target ≡ false

module _ (sha2 : Sha2) (header target : List ℕ) (dev : Device) (per_launch nonce_end : ℕ)
    (some_nonce : 0 < per_launch) (small : nonce_end < 2 ^ 32)
    (kernel : Sweeps sha2 header target dev per_launch nonce_end) (m : ℕ)
    (inside : m < nonce_end) where
  abbrev Missed : Type 0
  Missed = hash_leq_target (sha256d sha2 (with_nonce header m)) target ≡ false

  -- A launch in flight has `m` in its window.
  abbrev InFlight : Option ℕ → Type 0
  InFlight none = ⊥
  InFlight (some s) = (s ≤ m) × (m < s + per_launch)

  abbrev Kept : Pipes → Type 0
  Kept p = (p.next_start ≤ m) ⊎ InFlight p.current ⊎ InFlight p.other ⊎ Missed

  -- Once the current pipe is drained.
  abbrev KeptDry : Pipes → Type 0
  KeptDry p = (p.next_start ≤ m) ⊎ InFlight p.other ⊎ Missed

  drained_missed :
      (o : Option ℕ) → drained dev per_launch nonce_end o ≡ ok none → InFlight o → Missed
  unfolding drained
  drained_missed none e h = absurd h
  drained_missed (some s) e h = kernel.reports s m e h.0 h.1 inside

  dry : (p : Pipes) → drained dev per_launch nonce_end p.current ≡ ok none → Kept p → KeptDry p
  dry p e (inl later) = inl later
  dry p e (inr (inl now)) = inr (inr (drained_missed p.current e now))
  dry p e (inr (inr (inl other))) = inr (inl other)
  dry p e (inr (inr (inr missed))) = inr (inr missed)

  idle_flight : (o : Option ℕ) → is_idle o ≡ true → InFlight o → ⊥
  unfolding is_idle
  idle_flight none e h = h
  idle_flight (some s) e h = absurd cc

  spent_missed :
      (p : Pipes) → nonce_end ≤ p.next_start → is_idle p.other ≡ true → KeptDry p → Missed
  spent_missed p done idle (inl later) = absurd (omega arith)
  spent_missed p done idle (inr (inl other)) = absurd (idle_flight p.other idle other)
  spent_missed p done idle (inr (inr missed)) = missed

  started-Kept :
      (p : Pipes)
      → p.next_start < nonce_end
      → KeptDry p
      → Kept (record {
        current = p.other;
        other = some p.next_start;
        next_start = p.next_start + min per_launch (nonce_end - p.next_start);
      })
  started-Kept p more (inl later) = elim (Bool-cases (leb (p.next_start + per_launch) m)) [
    | inl beyond ↦ inl (ground arith)
    | inr within ↦ inr (inr (inl (ground arith)))
  ]
  started-Kept p more (inr (inl other)) = inr (inl other)
  started-Kept p more (inr (inr missed)) = inr (inr (inr missed))

  waited-Kept :
      (p : Pipes)
      → KeptDry p
      → Kept (record { current = p.other; other = none; next_start = p.next_start })
  waited-Kept p (inl later) = inl later
  waited-Kept p (inr (inl other)) = inr (inl other)
  waited-Kept p (inr (inr missed)) = inr (inr (inr missed))

  abbrev launch : Pipes → Stepped
  launch = cuda_launch dev per_launch nonce_end

  not_found :
      (o : Option Outcome) (r : MiningResult) → o ≡ some (ok (some r)) → o ≡ some (ok none) → ⊥
  not_found o r e h = cc

  not_fault : (o : Option Outcome) (f : DeviceError) → o ≡ some (err f) → o ≡ some (ok none) → ⊥
  not_fault o f e h = cc

  loop_missed :
      (fuel i : ℕ) (p : Pipes) (cancelled : ℕ → Bool)
      → ((j : ℕ) → cancelled j ≡ false)
      → sweep_loop dev per_launch nonce_end launch cancelled fuel i p ≡ some (ok none)
      → Kept p
      → Missed
  loop_missed zero i p cancelled on h k = unfold sweep_loop in absurd (cc h)
  loop_missed (suc fuel) i p cancelled on h k =
      elim (turn_cases dev per_launch nonce_end launch p) [
        | found r at eq ↦ absurd (
            not_found _ r
              (loop_return dev per_launch nonce_end launch cancelled fuel i p false (on i)
                (ok (some r)) eq)
              h)
        | fault e eq ↦ absurd (
            not_fault _ e
              (loop_return dev per_launch nonce_end launch cancelled fuel i p false (on i) (err e)
                eq)
              h)
        | clean at eq ↦ elim (cuda_launch_cases dev per_launch nonce_end some_nonce small p) [
          | faulted e rest ↦ absurd (
              not_fault _ e
                (loop_return dev per_launch nonce_end launch cancelled fuel i p false (on i) (err e)
                  (eq ∙ rest))
                h)
          | spent done idle rest ↦ spent_missed p done idle (dry p at k)
          | started more rest ↦
              let q : Pipes = record {
                current = p.other;
                other = some p.next_start;
                next_start = p.next_start + min per_launch (nonce_end - p.next_start);
              } in
              loop_missed fuel (i + 1) q cancelled on
                (sym (
                    loop_again dev per_launch nonce_end launch cancelled fuel i p false (on i) q
                      (eq ∙ rest))
                  ∙ h)
                (started-Kept p more (dry p at k))
          | waited done busy rest ↦
              let q : Pipes = record {
                current = p.other;
                other = none;
                next_start = p.next_start;
              } in
              loop_missed fuel (i + 1) q cancelled on
                (sym (
                    loop_again dev per_launch nonce_end launch cancelled fuel i p false (on i) q
                      (eq ∙ rest))
                  ∙ h)
                (waited-Kept p (dry p at k))
        ]
      ]

leb_above : (a b : ℕ) → b < a → leb a b ≡ false
leb_above a b h = ground arith

setup_fails :
    (dev : Device) (per_launch nonce_end : ℕ) (launch : Pipes → Stepped) (cancelled : ℕ → Bool)
    (fuel nonce_start : ℕ) (e : DeviceError)
    → leb nonce_end nonce_start ≡ false
    → dev.setup ≡ some e
    → gpu_hash_range dev per_launch nonce_end launch cancelled fuel nonce_start ≡ some (ok none)
    → ⊥
unfolding gpu_hash_range
setup_fails dev per_launch nonce_end launch cancelled fuel nonce_start e more failed h =
    cc (simp (more, failed) at h)

-- A sweep of the CUDA backend that is not cancelled, does not fault and finds nothing has drained
-- a launch over every nonce of its range, so that none of them is a share of the header: a launch
-- sweeps at least one nonce, the range ends below 2 ^ 32, and a launch that reports no find has
-- hashed its window.
pub cuda_hash_range-none :
    (sha2 : Sha2) (header target : List ℕ) (dev : Device) (g : Geometry) (cancelled : ℕ → Bool)
    (fuel nonce_start nonce_end m : ℕ)
    → 0 < nonces_per_launch g
    → nonce_end < 2 ^ 32
    → Sweeps sha2 header target dev (nonces_per_launch g) nonce_end
    → ((j : ℕ) → cancelled j ≡ false)
    → cuda_hash_range dev g cancelled fuel nonce_start nonce_end ≡ some (ok none)
    → nonce_start ≤ m
    → m < nonce_end
    → hash_leq_target (sha256d sha2 (with_nonce header m)) target ≡ false
unfolding cuda_hash_range
cuda_hash_range-none sha2 header target dev g cancelled fuel nonce_start nonce_end m some_nonce
      small kernel on h low inside =
    let more : leb nonce_end nonce_start ≡ false = leb_above nonce_end nonce_start (omega arith) in
    elim (Option-cases dev.setup) [
      | inr (e, failed) ↦ absurd (
          setup_fails dev (nonces_per_launch g) nonce_end
            (cuda_launch dev (nonces_per_launch g) nonce_end) cancelled fuel nonce_start e more
            failed h)
      | inl ready ↦
          loop_missed sha2 header target dev (nonces_per_launch g) nonce_end some_nonce small kernel
            m inside fuel 0 (record { current = none; other = none; next_start = nonce_start })
            cancelled on
            (sym (
                gpu_hash_range-sweep_loop dev (nonces_per_launch g) nonce_end
                  (cuda_launch dev (nonces_per_launch g) nonce_end) cancelled fuel nonce_start more
                  ready)
              ∙ h)
            (inl low)
    ]
