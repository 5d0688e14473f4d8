-- ===== src/Sha.antt =====
-- src/sha256d_cpu.rs: SHA-256 over words of 32 bits, the midstate of a header and the functions
-- that finish a hash from it. `sha2` is a third-party crate: its two functions are the parameter
-- `Sha2`. A byte array is a list of bytes, `[u32; 8]` is `State`.
pub mod Compress
pub mod Padding
pub mod Schedule
pub mod Prefix
pub mod Finish
use csd_mining_pool_public.Prelude.{
  ℕ, ◌+◌, ◌*◌, ◌≡◌, List, [], ◌∷◌, ◌++◌, Text, length, take, drop, replicate, get_or, wrapping_add,
}
use csd_mining_pool_public.Prelude.Bytes.{to_be_bytes}
use Compress.{State, sha256_iv, be_word, sha256_compress, small_sigma0, small_sigma1, rounds_over}
use Padding.{state_to_be_bytes, merkle_damgard}

-- The crate `sha2`: `Sha256::digest` and `compress256` on one block. Its documented behaviour is
-- FIPS 180-4: the digest is the padded message absorbed block by block.
pub record Sha2 : Type 0 where
  pub digest : List ℕ → List ℕ
  pub compress256 : State → List ℕ → State
  pub digest_fips : (m : List ℕ) → digest m ≡ merkle_damgard compress256 m

-- The double hash.
unfoldable pub sha256d : Sha2 → List ℕ → List ℕ
sha256d sha2 buf = sha2.digest (sha2.digest buf)

-- The second block of the inner hash: 20 message bytes, 0x80, zeros, and the length of 672 bits.
unfoldable pub inner_block : List ℕ → List ℕ
inner_block tail = tail ++ (0x80 ∷ replicate 35 0 ++ to_be_bytes 8 (84 * 8))

-- The only block of the outer hash.
unfoldable pub outer_block : List ℕ → List ℕ
outer_block inner_digest = inner_digest ++ (0x80 ∷ replicate 23 0 ++ to_be_bytes 8 (32 * 8))

unfoldable pub midstate_of_first_chunk : List ℕ → State
midstate_of_first_chunk header_84 = sha256_compress sha256_iv (take 64 header_84)

unfoldable pub finish_sha256d_from_midstate : State → List ℕ → List ℕ
unfolding inner_block outer_block
finish_sha256d_from_midstate midstate tail =
    let state = sha256_compress midstate (inner_block tail) in
    state_to_be_bytes (sha256_compress sha256_iv (outer_block (state_to_be_bytes state)))

unfoldable pub midstate_of_first_chunk_fast : Sha2 → List ℕ → State
midstate_of_first_chunk_fast sha2 header_84 = sha2.compress256 sha256_iv (take 64 header_84)

unfoldable pub finish_sha256d_from_midstate_fast : Sha2 → State → List ℕ → List ℕ
unfolding inner_block outer_block
finish_sha256d_from_midstate_fast sha2 midstate tail =
    let state = sha2.compress256 midstate (inner_block tail) in
    state_to_be_bytes (sha2.compress256 sha256_iv (outer_block (state_to_be_bytes state)))

-- Rounds 0 to 3 of the inner second block and the words w16, w17, w18, which no nonce changes.
unfoldable pub inner_prefix_precompute :
    State → List ℕ → record { prefix_state : State; sched3 : List ℕ }
inner_prefix_precompute midstate tail_16 =
    let w0 = be_word tail_16 0 in
    let w1 = be_word tail_16 4 in
    let w2 = be_word tail_16 8 in
    let w3 = be_word tail_16 12 in
    let w15 : ℕ = 672 in
    let w16 = wrapping_add (wrapping_add w0 (small_sigma0 w1)) (small_sigma1 0) in
    let w17 = wrapping_add (wrapping_add w1 (small_sigma0 w2)) (small_sigma1 w15) in
    let w18 = wrapping_add (wrapping_add w2 (small_sigma0 w3)) (small_sigma1 w16) in
    record {
      prefix_state = rounds_over 0 (w0 ∷ w1 ∷ w2 ∷ w3 ∷ []) midstate;
      sched3 = w16 ∷ w17 ∷ w18 ∷ [];
    }
