-- ===== src/Tests/Turns.antt =====
-- The turns of the mining loop.
use csd_mining_pool_public.Prelude.{
  ◌-◌, ◌^◌, ◌≡◌, ◌≢◌, refl, ◌⊎◌, inl, true, false, some, List, [], ◌∷◌, arith, All, codes, text_eq,
  from_secs, get_elem?,
}
use csd_mining_pool_public.Prelude.Bytes.{to_be_bytes, from_be_bytes, to_le_bytes, from_le_bytes}
use csd_mining_pool_public.Prelude.Float.{of_nat}
use csd_mining_pool_public.Prelude.Results.{ok, err}
use csd_mining_pool_public.Sha.{
  sha256d, midstate_of_first_chunk_fast, finish_sha256d_from_midstate_fast, inner_block,
  outer_block,
}
use csd_mining_pool_public.Sha.Compress.{
  sha256_iv, sha256_compress, rotate_right, complement, small_sigma0, small_sigma1, sha256_k,
  be_word, block_words, next_word, extend_words, message_schedule, sha256_round, rounds_over,
  add_states,
}
use csd_mining_pool_public.Sha.Padding.{padding, state_to_be_bytes, absorb, merkle_damgard}
use csd_mining_pool_public.Work.{
  build_coinbase_bytes, coinbase_txid, merkle_root_from_branch, header_84,
}
use csd_mining_pool_public.Mapping.{compose_extranonce}
use csd_mining_pool_public.Target.{hash_leq_target}
use csd_mining_pool_public.Partition.{
  Share, cpu_total, chunk_ranges, land_last, partition_nonce_range,
}
use csd_mining_pool_public.Launch.{launch_header, with_nonce, gate, nonce_hash, sweep, cpu_worker}
use csd_mining_pool_public.Mining.Source.{LoopWork}
use csd_mining_pool_public.Mining.View.{new_sample, touch}
use csd_mining_pool_public.Mining.Turn.{
  Surroundings, Turned, pick_win, win_nonce, win_hash, roll, on_gated, settle, cpu_swept, find_of,
  cpu_winner, workers, gpu_outcome, count_cpu, finish_turn, turn, turns,
}
use csd_mining_pool_public.Mining.Sweeps.{Vars, Readings, clean_sweep, absorb as take_outcome}
use csd_mining_pool_public.Mining.Turn.Launches.{turns_distinct}
use csd_mining_pool_public.Mining.Turn.Shares.{
  solution, finish_turn-hash_range, finish_turn-workers,
}
use csd_mining_pool_public.Mining.Turn.Faults.{
  is_fault, turn_outcome, turn_faults, recoveries, streak_starts, recoveries-turns, turns_starved,
}
use csd_mining_pool_public.Tests.Hashing.{sha2, header}
use csd_mining_pool_public.Tests.Mining.{easy, find, never}
use csd_mining_pool_public.Tests.Rates.{rates, rates-ZeroRates}
use csd_mining_pool_public.Tests.Backends.{found_five, five_steps, finds_five}
use csd_mining_pool_public.Tests.Mining

abbrev work : LoopWork
work = record {
  template = Mining.job.template;
  job_id = Mining.job.job_id;
  xn1_low = Mining.job.xn1_low;
}

abbrev no_share : Share
no_share = record { above_zero = false; is_one = false; rounded = λ n. 0 }

abbrev clocks : Readings
clocks = record { touch_ms = 50; fault_at = 60; log_at = from_secs 20; publish_ms = 70 }

-- The device finds the nonce 7.
abbrev lucky : Surroundings
lucky = record {
  now = clocks;
  cancelled = λ i. never;
  order = [];
  device = λ hdr a b. ok (some (record { nonce = 7; hash = sha256d sha2 (with_nonce hdr 7) }));
}

abbrev broken : Surroundings
broken = record lucky { device = λ hdr a b. err (codes "launch failed") }

abbrev vars : Vars
vars = record {
  xn2 = 2 ^ 32 - 1;
  hash_mismatches = 0;
  gpu_nonces = 0;
  cpu_nonces = 0;
  fault_streak = 0;
  last_fault_log = 0;
  last_hashrate_log = 0;
  sample = new_sample;
}

abbrev works : List (LoopWork × Surroundings)
works = (work, lucky) ∷ (work, lucky) ∷ []

abbrev turn_one : Turned
turn_one = turn rates sha2 no_share 0 work lucky vars

abbrev turn_two : Turned
turn_two = turn rates sha2 no_share 0 work lucky turn_one.vars

first_turn : get_elem? (turns rates sha2 no_share 0 works vars) 0 ≡ some turn_one
unfolding turns
first_turn = refl

second_turn : get_elem? (turns rates sha2 no_share 0 works vars) 1 ≡ some turn_two
unfolding turns
second_turn = refl

first_sends : turn_one.submitted ≡ some (solution work vars 7)
unfolding turn finish_turn gpu_outcome count_cpu cpu_swept cpu_winner take_outcome clean_sweep touch
    pick_win win_nonce win_hash settle on_gated roll gate workers partition_nonce_range cpu_total
    chunk_ranges land_last hash_leq_target sha256d with_nonce launch_header coinbase_txid
    build_coinbase_bytes merkle_root_from_branch header_84 compose_extranonce from_le_bytes
    merkle_damgard absorb padding state_to_be_bytes sha256_compress rotate_right complement
    small_sigma0 small_sigma1 be_word block_words next_word extend_words message_schedule
    sha256_round rounds_over add_states sha256_iv sha256_k to_be_bytes from_be_bytes to_le_bytes
    text_eq
first_sends = refl

second_sends : turn_two.submitted ≡ some (solution work (record vars { xn2 = 0 }) 7)
unfolding turn finish_turn gpu_outcome count_cpu cpu_swept cpu_winner take_outcome clean_sweep touch
    pick_win win_nonce win_hash settle on_gated roll gate workers partition_nonce_range cpu_total
    chunk_ranges land_last hash_leq_target sha256d with_nonce launch_header coinbase_txid
    build_coinbase_bytes merkle_root_from_branch header_84 compose_extranonce from_le_bytes
    merkle_damgard absorb padding state_to_be_bytes sha256_compress rotate_right complement
    small_sigma0 small_sigma1 be_word block_words next_word extend_words message_schedule
    sha256_round rounds_over add_states sha256_iv sha256_k to_be_bytes from_be_bytes to_le_bytes
    text_eq
second_sends = refl

turns_distinct_example :
    (solution work vars 7).xn2 ≢ (solution work (record vars { xn2 = 0 }) 7).xn2
turns_distinct_example =
    turns_distinct rates sha2 no_share 0 works vars 0 1 turn_one turn_two (solution work vars 7)
      (solution work (record vars { xn2 = 0 }) 7) (omega arith) (omega arith) (omega arith)
      first_turn second_turn first_sends second_sends

-- The device answers what the CPU backend found.
abbrev on_cpu : Surroundings
on_cpu = record lucky { device = λ hdr a b. ok (some found_five) }

finish_turn-hash_range_example :
    (finish_turn rates sha2 work header (5, 6) [] on_cpu vars).submitted
    ≡ some (solution work vars 5)
finish_turn-hash_range_example =
    finish_turn-hash_range rates sha2 work header on_cpu 5 6 [] vars 1 five_steps found_five refl
      (omega arith) (omega arith) (omega arith) finds_five refl

abbrev ended : Surroundings
ended = record broken { order = 0 ∷ [] }

worker_finds :
    cpu_winner (workers sha2 header easy ended.cancelled 0 ((5, 9) ∷ [])) ended.order ≡ some find
unfolding workers cpu_winner find_of cpu_worker sweep hash_leq_target nonce_hash
    midstate_of_first_chunk_fast finish_sha256d_from_midstate_fast inner_block outer_block
    merkle_damgard absorb padding state_to_be_bytes sha256_compress rotate_right complement
    small_sigma0 small_sigma1 be_word block_words next_word extend_words message_schedule
    sha256_round rounds_over add_states sha256_iv sha256_k to_be_bytes from_be_bytes to_le_bytes
worker_finds = refl

faults : gpu_outcome ended header 9 20 ≡ err (codes "launch failed")
unfolding gpu_outcome
faults = refl

finish_turn-workers_example :
    (finish_turn rates sha2 work header
      (9, 20)
      (workers sha2 header easy ended.cancelled 0 ((5, 9) ∷ []))
      ended
      vars).submitted
    ≡ some (solution work vars 5)
finish_turn-workers_example =
    finish_turn-workers rates sha2 work header ended 9 20 ((5, 9) ∷ []) vars find refl
      (inl (codes "launch failed", faults)) worker_finds

abbrev faulting : List (LoopWork × Surroundings)
faulting = (work, broken) ∷ (work, broken) ∷ []

recoveries-turns_example :
    recoveries (turns rates sha2 no_share 0 faulting vars)
    ≡ streak_starts false (turn_faults rates sha2 no_share 0 faulting vars)
recoveries-turns_example = recoveries-turns rates sha2 no_share 0 faulting vars (omega arith)

All-faults : All (λ fault. fault ≡ true) (turn_faults rates sha2 no_share 0 faulting vars)
unfolding is_fault turn_outcome gpu_outcome partition_nonce_range cpu_total chunk_ranges land_last
All-faults = (refl, (refl, tt))

turns_starved_example :
    All
      (λ (t : Turned). (t.vars.sample ≡ vars.sample) ⊎ (t.vars.sample.ghs ≡ of_nat 0))
      (turns rates sha2 no_share 0 faulting vars)
turns_starved_example =
    turns_starved rates sha2 no_share 0 faulting vars rates-ZeroRates refl All-faults
