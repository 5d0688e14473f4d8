-- ===== src/Tests/Mining.antt =====
-- A notify, mapped, mined and submitted.
use csd_mining_pool_public.Prelude.{
  ℕ, ◌-◌, ◌^◌, ◌≡◌, refl, Bool, true, false, none, some, List, [], ◌∷◌, ◌++◌, codes, take, drop,
  replicate, arith, reverse,
}
use csd_mining_pool_public.Prelude.Bytes.{
  IsBytes, to_be_bytes, from_be_bytes, to_le_bytes, from_le_bytes,
}
use csd_mining_pool_public.Prelude.Results.{ok}
use csd_mining_pool_public.Sha.{
  sha256d, midstate_of_first_chunk_fast, finish_sha256d_from_midstate_fast, inner_block,
  outer_block,
}
use csd_mining_pool_public.Sha.Compress.{
  sha256_iv, sha256_compress, rotate_right, complement, small_sigma0, small_sigma1, sha256_k,
  be_word, block_words, next_word, extend_words, message_schedule, sha256_round, rounds_over,
  add_states,
}
use csd_mining_pool_public.Sha.Padding.{padding, state_to_be_bytes, absorb, merkle_damgard}
use csd_mining_pool_public.Protocol.{NotifyParams}
use csd_mining_pool_public.Work.{
  build_coinbase_bytes, coinbase_txid, merkle_root_from_branch, header_84,
}
use csd_mining_pool_public.Mapping.{
  MappedJob, hex_digit, hex_digits_value, parse_hex_u32, checked_hash32, decode_hash32,
  decode_branch, four_bytes, fnv1a64, notify_to_template, compose_extranonce,
}
use csd_mining_pool_public.Target.{hash_leq_target}
use csd_mining_pool_public.Launch.{
  CpuFind, Solution, submit, launch_header, with_nonce, gate, nonce_hash, sweep, cpu_worker,
}
use csd_mining_pool_public.Launch.Gate.{Accepted, gate-Accepted, gate_iff}
use csd_mining_pool_public.Launch.Bridge.{
  bridge_golden_header, bridge_golden_header-notify_to_template,
}
use csd_mining_pool_public.Launch.Sweep.{cpu_worker-none}
use csd_mining_pool_public.Tests.Hashing.{sha2, header}
use csd_mining_pool_public.Tests.Hexes.{hex}

abbrev prev_hash : List ℕ
prev_hash = 0 ∷ 1 ∷ 2 ∷ replicate 29 9

abbrev notify : NotifyParams
notify = record {
  job_id = codes "deadbeefcafe";
  prev_hash_be_hex =
      codes "000102" ++ codes "0909090909090909090909090909090909090909090909090909090909";
  coinb1_hex = codes "01000000aabbcc";
  coinb2_hex = codes "ffeeddccbbaa99";
  merkle_branches_hex = [];
  version_hex = codes "20000000";
  nbits_hex = codes "1d00ffff";
  ntime_hex = codes "665544cc";
  clean_jobs = true;
}

abbrev xn1 : List ℕ
xn1 = 0xaa ∷ 0xbb ∷ 0xcc ∷ 0xdd ∷ []

xn1-IsBytes : IsBytes xn1
xn1-IsBytes = (omega arith, (omega arith, (omega arith, (omega arith, tt))))

-- Every hash is at most this target.
abbrev pub easy : List ℕ
easy = replicate 32 255

abbrev pub job : MappedJob
job = record {
  template = record {
    id = fnv1a64 (codes "deadbeefcafe");
    version = 0x20000000;
    prev = reverse prev_hash;
    time = 0x665544cc;
    bits = 0x1d00ffff;
    target = easy;
    coinbase_prefix = 1 ∷ 0 ∷ 0 ∷ 0 ∷ 0xaa ∷ 0xbb ∷ 0xcc ∷ [];
    extranonce_size = 8;
    coinbase_suffix = 0xff ∷ 0xee ∷ 0xdd ∷ 0xcc ∷ 0xbb ∷ 0xaa ∷ 0x99 ∷ [];
    merkle_branch = [];
    nonce_start = 0;
    nonce_end = 2 ^ 32 - 1;
    height = 0;
  };
  job_id = codes "deadbeefcafe";
  xn1_low = from_le_bytes xn1;
}

maps : notify_to_template hex notify xn1 easy ≡ ok job
unfolding notify_to_template parse_hex_u32 hex_digits_value hex_digit checked_hash32 decode_hash32
    decode_branch four_bytes
maps = refl

bridge_golden_header-notify_to_template_example :
    bridge_golden_header sha2 hex notify xn1 1 0x12345678
    ≡ some (with_nonce (launch_header sha2 job.template job.xn1_low 1) 0x12345678)
bridge_golden_header-notify_to_template_example =
    bridge_golden_header-notify_to_template sha2 hex notify xn1 easy job 1 0x12345678 xn1-IsBytes
      maps

abbrev hdr : List ℕ
hdr = launch_header sha2 job.template job.xn1_low 1

hdr-passes : hash_leq_target (sha256d sha2 (with_nonce hdr 7)) easy ≡ true
unfolding hash_leq_target sha256d with_nonce launch_header coinbase_txid build_coinbase_bytes
    merkle_root_from_branch header_84 compose_extranonce from_le_bytes merkle_damgard absorb padding
    state_to_be_bytes sha256_compress rotate_right complement small_sigma0 small_sigma1 be_word
    block_words next_word extend_words message_schedule sha256_round rounds_over add_states
    sha256_iv sha256_k to_be_bytes from_be_bytes to_le_bytes
hdr-passes = refl

abbrev share : Solution
share = record { job_id = codes "deadbeefcafe"; xn2 = 1; time = 0x665544cc; nonce = 7 }

gated : gate sha2 job.job_id job.template hdr 1 7 (sha256d sha2 (with_nonce hdr 7)) ≡ submit share
gated =
    (gate_iff sha2 job.job_id job.template hdr 1 7 (sha256d sha2 (with_nonce hdr 7)) share).1
      (refl, hdr-passes, refl)

gate-Accepted_example : Accepted sha2 hex notify xn1 easy share
gate-Accepted_example =
    gate-Accepted sha2 hex notify xn1 easy job 1 7 (sha256d sha2 (with_nonce hdr 7)) share
      xn1-IsBytes (omega arith) maps gated

abbrev pub never : ℕ → Bool
never i = false

-- No hash of these is all zeros.
abbrev pub impossible : List ℕ
impossible = replicate 32 0

abbrev pub find : CpuFind
find = record {
  nonce = 5;
  hash = nonce_hash sha2 (midstate_of_first_chunk_fast sha2 header) (take 16 (drop 64 header)) 5;
}

finds : (cpu_worker sha2 header easy never 5 9).found ≡ some find
unfolding cpu_worker sweep hash_leq_target nonce_hash midstate_of_first_chunk_fast
    finish_sha256d_from_midstate_fast inner_block outer_block merkle_damgard absorb padding
    state_to_be_bytes sha256_compress rotate_right complement small_sigma0 small_sigma1 be_word
    block_words next_word extend_words message_schedule sha256_round rounds_over add_states
    sha256_iv sha256_k to_be_bytes from_be_bytes to_le_bytes
finds = refl

finds_none : (cpu_worker sha2 header impossible never 5 8).found ≡ none
unfolding cpu_worker sweep hash_leq_target nonce_hash midstate_of_first_chunk_fast
    finish_sha256d_from_midstate_fast inner_block outer_block merkle_damgard absorb padding
    state_to_be_bytes sha256_compress rotate_right complement small_sigma0 small_sigma1 be_word
    block_words next_word extend_words message_schedule sha256_round rounds_over add_states
    sha256_iv sha256_k to_be_bytes from_be_bytes to_le_bytes
finds_none = refl

cpu_worker-none_example :
    (hash_leq_target (sha256d sha2 (with_nonce header 6)) impossible ≡ false)
    × ((cpu_worker sha2 header impossible never 5 8).local_swept ≡ 3)
cpu_worker-none_example =
    cpu_worker-none sha2 header impossible never 5 8 6 refl (λ k. never_is k) finds_none
      (omega arith) (omega arith)
  where
    never_is : (k : ℕ) → never k ≡ false
    never_is k = refl

-- A target that nonces 6 and 7 miss and nonce 8 meets.
abbrev narrow : List ℕ
narrow = 200 ∷ replicate 31 255

abbrev find_8 : CpuFind
find_8 = record {
  nonce = 8;
  hash = nonce_hash sha2 (midstate_of_first_chunk_fast sha2 header) (take 16 (drop 64 header)) 8;
}

finds_8 : (cpu_worker sha2 header narrow never 6 20).found ≡ some find_8
unfolding cpu_worker sweep hash_leq_target nonce_hash midstate_of_first_chunk_fast
    finish_sha256d_from_midstate_fast inner_block outer_block merkle_damgard absorb padding
    state_to_be_bytes sha256_compress rotate_right complement small_sigma0 small_sigma1 be_word
    block_words next_word extend_words message_schedule sha256_round rounds_over add_states
    sha256_iv sha256_k to_be_bytes from_be_bytes to_le_bytes
finds_8 = refl
