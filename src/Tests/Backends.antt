-- ===== src/Tests/Backends.antt =====
-- The CPU backend, the GPU backends and the choice of a geometry.
use csd_mining_pool_public.Prelude.{
  ℕ, ◌+◌, ◌-◌, ◌*◌, ◌≤◌, ◌<◌, ◌≡◌, refl, subst, ◌⊎◌, Bool, true, false, Option, none, some, List,
  [], ◌∷◌, replicate, arith, All, if◌then◌else◌,
}
use csd_mining_pool_public.Prelude.Bytes.{to_be_bytes, from_be_bytes, to_le_bytes}
use csd_mining_pool_public.Prelude.Float.{of_nat}
use csd_mining_pool_public.Prelude.Results.{ok}
use csd_mining_pool_public.Sha.{
  sha256d, midstate_of_first_chunk_fast, finish_sha256d_from_midstate_fast, inner_block,
  outer_block,
}
use csd_mining_pool_public.Sha.Compress.{
  sha256_iv, sha256_compress, rotate_right, complement, small_sigma0, small_sigma1, sha256_k,
  be_word, block_words, next_word, extend_words, message_schedule, sha256_round, rounds_over,
  add_states,
}
use csd_mining_pool_public.Sha.Padding.{padding, state_to_be_bytes, absorb, merkle_damgard}
use csd_mining_pool_public.Target.{hash_leq_target}
use csd_mining_pool_public.Launch.{with_nonce, nonce_hash}
use csd_mining_pool_public.CpuBackend.{
  MiningResult, checking, or_insert, worker_step, step, run, is_returned, all_returned, shared_at,
  hash_at, hash_range,
}
use csd_mining_pool_public.CpuBackend.Sound.{hash_range_found}
use csd_mining_pool_public.CpuBackend.Complete.{hash_range-none}
use csd_mining_pool_public.CpuBackend.Joins.{live, hash_range_joins}
use csd_mining_pool_public.Mining.Sweeps.{Outcome}
use csd_mining_pool_public.GpuBackend.{
  Device, Geometry, nonces_per_launch, words_to_bytes, drain_pipe, is_idle, drained, launched,
  exchanged, cuda_launch, sweep_step, sweep_loop, gpu_hash_range, cuda_hash_range,
}
use csd_mining_pool_public.GpuBackend.Ends.{cuda_hash_range_returns}
use csd_mining_pool_public.GpuBackend.Covers.{Sweeps, cuda_hash_range-none}
use csd_mining_pool_public.GpuBackend.Opencl.{
  pick_pipe, set_pipe, opencl_drain_pipe, drain_result, enqueued, not_launched, launch_next,
  on_drained, pair_step, pair_loop, opencl_sweep, opencl_hash_range,
}
use csd_mining_pool_public.GpuBackend.Same.{FindsDrained, opencl_hash_range-cuda_hash_range}
use csd_mining_pool_public.Autotune.{GeometryMeasurement, is_unusable, pick_best}
use csd_mining_pool_public.Autotune.Best.{Among, Unbeaten, pick_best_lem}
use csd_mining_pool_public.Tests.Hashing.{sha2, header}
use csd_mining_pool_public.Tests.Mining.{easy, impossible, never}

abbrev pub found_five : MiningResult
found_five = record { nonce = 5; hash = hash_at sha2 header 5 }

-- One thread that checks, takes its nonces, finds and returns.
abbrev pub five_steps : List (ℕ × Bool)
five_steps = replicate 5 (0, false)

pub finds_five : hash_range sha2 1 header easy 5 6 five_steps ≡ some (some found_five)
unfolding hash_range run step worker_step or_insert is_returned all_returned hash_at hash_leq_target
    nonce_hash midstate_of_first_chunk_fast finish_sha256d_from_midstate_fast inner_block
    outer_block merkle_damgard absorb padding state_to_be_bytes sha256_compress rotate_right
    complement small_sigma0 small_sigma1 be_word block_words next_word extend_words message_schedule
    sha256_round rounds_over add_states sha256_iv sha256_k to_be_bytes from_be_bytes to_le_bytes
finds_five = refl

hash_range_found_example :
    (5 ≤ 5)
    × (5 < 6)
    × (found_five.hash ≡ sha256d sha2 (with_nonce header 5))
    × (hash_leq_target found_five.hash easy ≡ true)
hash_range_found_example =
    hash_range_found sha2 1 header easy 5 6 five_steps found_five refl (omega arith) (omega arith)
      (omega arith) finds_five

-- One thread that checks, takes its nonces, tries the one there is, and finds no more of them.
abbrev six_steps : List (ℕ × Bool)
six_steps = replicate 6 (0, false)

finds_nothing : hash_range sha2 1 header impossible 5 6 six_steps ≡ some none
unfolding hash_range run step worker_step is_returned all_returned hash_at hash_leq_target
    nonce_hash midstate_of_first_chunk_fast finish_sha256d_from_midstate_fast inner_block
    outer_block merkle_damgard absorb padding state_to_be_bytes sha256_compress rotate_right
    complement small_sigma0 small_sigma1 be_word block_words next_word extend_words message_schedule
    sha256_round rounds_over add_states sha256_iv sha256_k to_be_bytes from_be_bytes to_le_bytes
finds_nothing = refl

hash_range-none_example : hash_leq_target (sha256d sha2 (with_nonce header 5)) impossible ≡ false
hash_range-none_example =
    hash_range-none sha2 1 header impossible 5 6 six_steps 5 refl (omega arith) (omega arith)
      (omega arith) (refl, (refl, (refl, (refl, (refl, (refl, tt)))))) finds_nothing (omega arith)
      (omega arith)

abbrev two_steps : List (ℕ × Bool)
two_steps = (0, false) ∷ (1, false) ∷ []

second_live :
    live 1 (step (hash_at sha2 header) easy 6 0 false (checking ∷ checking ∷ []) (shared_at 5)).0
    ≡ true
unfolding step worker_step is_returned
second_live = refl

first_live : live 0 (checking ∷ checking ∷ []) ≡ true
unfolding is_returned
first_live = refl

hash_range_joins_example :
    (2 ≤ 4 * (6 - 5) + 3 * 2)
    × (((result : Option MiningResult) × (hash_range sha2 2 header easy 5 6 two_steps
            ≡ some result))
        ⊎ ((i : ℕ) × (live i
                (run (hash_at sha2 header) easy 6 two_steps (replicate 2 checking) (shared_at 5)).0
              ≡ true)))
hash_range_joins_example =
    hash_range_joins sha2 2 header easy 5 6 two_steps (omega arith) (omega arith) (omega arith)
      (first_live, (second_live, tt))

abbrev geometry : Geometry
geometry = record { blocks = 1; threads_per_block = 1; nonces_per_thread = 1 }

-- A device that hashes the one nonce of a launch, with the words of a hash left at zero.
abbrev device : Device
device = record {
  setup = none;
  start_launch = λ s e. none;
  readout = λ s. ok (record {
    found_flag = if hash_leq_target (sha256d sha2 (with_nonce header s)) impossible then 1 else 0;
    found_nonce = s;
    found_hash = replicate 8 0;
  });
}

one_nonce : nonces_per_launch geometry ≡ 1
unfolding nonces_per_launch
one_nonce = refl

some_nonce : 0 < nonces_per_launch geometry
some_nonce = rw one_nonce (omega arith)

no_flag :
    (s : ℕ)
    → drain_pipe (device.readout s) ≡ ok none
    → hash_leq_target (sha256d sha2 (with_nonce header s)) impossible ≡ false
unfolding drain_pipe
no_flag s h = ground arith

device-Sweeps : Sweeps sha2 header impossible device (nonces_per_launch geometry) 6
device-Sweeps = record {
  reports = λ s m quiet low high inside.
      let same : s ≡ m = omega (arith, low, rw one_nonce at high) in
      subst (λ n. hash_leq_target (sha256d sha2 (with_nonce header n)) impossible ≡ false) same
        (no_flag s quiet);
}

cuda_hash_range_returns_example :
    (o : Outcome) × (cuda_hash_range device geometry never 17 5 9 ≡ some o)
cuda_hash_range_returns_example =
    cuda_hash_range_returns device geometry never 17 5 9 some_nonce (omega arith) (omega arith)

never_is : (j : ℕ) → never j ≡ false
never_is j = refl

sweeps_nothing : cuda_hash_range device geometry never 5 5 6 ≡ some (ok none)
unfolding cuda_hash_range gpu_hash_range sweep_loop sweep_step drained drain_pipe cuda_launch
    launched exchanged is_idle nonces_per_launch hash_leq_target sha256d with_nonce merkle_damgard
    absorb padding state_to_be_bytes sha256_compress rotate_right complement small_sigma0
    small_sigma1 be_word block_words next_word extend_words message_schedule sha256_round
    rounds_over add_states sha256_iv sha256_k to_be_bytes from_be_bytes to_le_bytes
sweeps_nothing = refl

cuda_hash_range-none_example :
    hash_leq_target (sha256d sha2 (with_nonce header 5)) impossible ≡ false
cuda_hash_range-none_example =
    cuda_hash_range-none sha2 header impossible device geometry never 5 5 6 5 some_nonce
      (omega arith) device-Sweeps never_is sweeps_nothing (omega arith) (omega arith)

-- A device that finds the first nonce of a launch, and has two launches in flight by then.
abbrev lucky_device : Device
lucky_device = record device {
  readout = λ s. ok (record { found_flag = 1; found_nonce = s; found_hash = replicate 8 0 });
}

finds_and_drains :
    opencl_sweep lucky_device geometry never 17 5 9
    ≡ some (
      ok (some (record { nonce = 5; hash = replicate 32 0 })),
      record { a = none; b = none; current_pipe = false; next_start = 7 },
    )
unfolding opencl_sweep pair_loop pair_step on_drained launch_next enqueued not_launched drain_result
    opencl_drain_pipe words_to_bytes set_pipe pick_pipe is_idle nonces_per_launch to_be_bytes
    to_le_bytes
finds_and_drains = refl

opencl_hash_range-cuda_hash_range_example :
    (opencl_hash_range lucky_device geometry never 17 5 9
      ≡ cuda_hash_range lucky_device geometry never 17 5 9)
    × FindsDrained (opencl_sweep lucky_device geometry never 17 5 9)
opencl_hash_range-cuda_hash_range_example =
    opencl_hash_range-cuda_hash_range lucky_device geometry never 17 5 9 some_nonce

abbrev slow : GeometryMeasurement
slow = record { blocks = 256; threads_per_block = 256; nonces_per_thread = 4096; mh_s = of_nat 3 }

abbrev fast : GeometryMeasurement
fast = record slow { blocks = 512; mh_s = of_nat 5 }

pick_best_lem_example :
    ((pick_best (slow ∷ fast ∷ []) ≡ none) × All (λ m. is_unusable m ≡ true) (slow ∷ fast ∷ []))
    ⊎ ((r : GeometryMeasurement) × (pick_best (slow ∷ fast ∷ []) ≡ some r)
        × Among r (slow ∷ fast ∷ [])
        × (is_unusable r ≡ false)
        × Unbeaten r (slow ∷ fast ∷ []))
pick_best_lem_example = pick_best_lem (slow ∷ fast ∷ [])
