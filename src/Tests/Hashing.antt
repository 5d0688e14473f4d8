-- ===== src/Tests/Hashing.antt =====
-- The hashing results on the real compression function.
use csd_mining_pool_public.Prelude.{ℕ, ◌≡◌, refl, List, [], ◌∷◌, ◌++◌, take, drop, replicate}
use csd_mining_pool_public.Prelude.Bytes.{to_be_bytes, from_be_bytes, to_le_bytes}
use csd_mining_pool_public.Sha.{
  Sha2, sha256d, midstate_of_first_chunk_fast, finish_sha256d_from_midstate_fast,
  inner_prefix_precompute, inner_block,
}
use csd_mining_pool_public.Sha.Finish.{finish_sha256d_from_midstate_fast_lem}
use csd_mining_pool_public.Sha.Prefix.{inner_prefix_precompute_lem}
use csd_mining_pool_public.Sha.Compress.{
  sha256_iv, sha256_compress, rotate_right, complement, small_sigma0, small_sigma1, sha256_k,
  be_word, block_words, next_word, extend_words, message_schedule, sha256_round, rounds_over,
  add_states,
}
use csd_mining_pool_public.Sha.Padding.{padding, state_to_be_bytes, absorb, merkle_damgard}

-- `sha2` as FIPS 180-4 has it.
abbrev pub sha2 : Sha2
sha2 = record {
  digest = merkle_damgard sha256_compress;
  compress256 = sha256_compress;
  digest_fips = λ m. refl;
}

digest_of_nothing : take 4 (sha2.digest []) ≡ 0xe3 ∷ 0xb0 ∷ 0xc4 ∷ 0x42 ∷ []
unfolding merkle_damgard absorb padding state_to_be_bytes sha256_compress rotate_right complement
    small_sigma0 small_sigma1 be_word block_words next_word extend_words message_schedule
    sha256_round rounds_over add_states sha256_iv sha256_k to_be_bytes from_be_bytes to_le_bytes
digest_of_nothing = refl

abbrev pub header : List ℕ
header = replicate 40 7 ++ replicate 44 200

finish_sha256d_from_midstate_fast_lem_example :
    finish_sha256d_from_midstate_fast sha2
      (midstate_of_first_chunk_fast sha2 header)
      (drop 64 header)
    ≡ sha256d sha2 header
finish_sha256d_from_midstate_fast_lem_example =
    finish_sha256d_from_midstate_fast_lem sha2 header refl

inner_prefix_precompute_lem_example :
    let p = inner_prefix_precompute sha256_iv (replicate 16 200) in
    let block = inner_block (replicate 16 200 ++ (7 ∷ 0 ∷ 0 ∷ 0 ∷ [])) in
    let w = message_schedule block in
    (w ≡ extend_words 45 19 (block_words 16 0 block ++ p.sched3))
    × (sha256_compress sha256_iv block
        ≡ add_states sha256_iv (rounds_over 4 (drop 4 w) p.prefix_state))
inner_prefix_precompute_lem_example =
    inner_prefix_precompute_lem sha256_iv (replicate 16 200) (7 ∷ 0 ∷ 0 ∷ 0 ∷ []) refl refl
