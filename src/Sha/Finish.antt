-- ===== src/Sha/Finish.antt =====
-- src/sha256d_cpu.rs: the finishers against the double hash of the whole header.
use csd_mining_pool_public.Prelude.{
  ℕ, ◌+◌, ◌/◌, ◌≤◌, ◌≡◌, refl, ap, ap₂, sym, ◌∙◌, List, ◌++◌, length, take, drop, arith,
  length-append, length-drop, take_all, take-append_le, drop-append_le,
}
use csd_mining_pool_public.Prelude.Bytes.{to_be_bytes, to_le_bytes}
use csd_mining_pool_public.Sha.Compress.{State, sha256_iv, sha256_compress}
use csd_mining_pool_public.Sha.Padding.{padding, state_to_be_bytes, absorb, merkle_damgard}
use csd_mining_pool_public.Sha.{
  Sha2, sha256d, inner_block, outer_block, midstate_of_first_chunk, finish_sha256d_from_midstate,
  midstate_of_first_chunk_fast, finish_sha256d_from_midstate_fast,
}

length-state_to_be_bytes : (s : State) → length (state_to_be_bytes s) ≡ 32
unfolding state_to_be_bytes to_be_bytes to_le_bytes
length-state_to_be_bytes s = refl

length-padding-84 : length (padding 84) ≡ 44
unfolding padding to_be_bytes to_le_bytes
length-padding-84 = refl

length-padding-32 : length (padding 32) ≡ 32
unfolding padding to_be_bytes to_le_bytes
length-padding-32 = refl

inner_block-padding : (tail : List ℕ) → tail ++ padding 84 ≡ inner_block tail
unfolding padding inner_block to_be_bytes to_le_bytes
inner_block-padding tail = refl

outer_block-padding : (m : List ℕ) → m ++ padding 32 ≡ outer_block m
unfolding padding outer_block to_be_bytes to_le_bytes
outer_block-padding m = refl

-- A message of `n` bytes whose padding is known, and its number of blocks.
padded_length : (m p : List ℕ) {n k : ℕ} → length m ≡ n → length p ≡ k → length (m ++ p) ≡ n + k
padded_length m p e q = length-append m p ∙ ap₂ ◌+◌ e q

module _ (compress : State → List ℕ → State) where
  absorb_one : (s : State) (m : List ℕ) → length m ≡ 64 → absorb compress 1 s m ≡ compress s m
  unfolding absorb
  absorb_one s m e = ap (compress s) (take_all 64 m e)

  absorb_two :
      (s : State) (m : List ℕ)
      → absorb compress 2 s m ≡ absorb compress 1 (compress s (take 64 m)) (drop 64 m)
  unfolding absorb
  absorb_two s m = refl

  merkle_damgard_of :
      (m : List ℕ) (n : ℕ)
      → length m ≡ n
      → merkle_damgard compress m
        ≡ state_to_be_bytes
            (absorb compress (length (m ++ padding n) / 64) sha256_iv (m ++ padding n))
  unfolding merkle_damgard
  merkle_damgard_of m n e =
      ap
        (λ k.
          state_to_be_bytes
            (absorb compress (length (m ++ padding k) / 64) sha256_iv (m ++ padding k)))
        e

  -- A message of 84 bytes is two blocks.
  absorb-84 :
      (hdr : List ℕ)
      → length hdr ≡ 84
      → absorb compress 2 sha256_iv (hdr ++ padding 84)
        ≡ compress (compress sha256_iv (take 64 hdr)) (inner_block (drop 64 hdr))
  absorb-84 hdr e =
      let long : 64 ≤ length hdr = omega arith in
      let tail : drop 64 (hdr ++ padding 84) ≡ inner_block (drop 64 hdr) =
        drop-append_le 64 hdr (padding 84) long ∙ inner_block-padding (drop 64 hdr) in
      let full : length (inner_block (drop 64 hdr)) ≡ 64 =
        ap length (sym (inner_block-padding (drop 64 hdr)))
        ∙ padded_length (drop 64 hdr) (padding 84) {n = 20} (omega (arith, length-drop 64 hdr))
            length-padding-84 in
      absorb_two sha256_iv (hdr ++ padding 84)
      ∙ ap₂ (λ b t. absorb compress 1 (compress sha256_iv b) t)
          (take-append_le 64 hdr (padding 84) long) tail
      ∙ absorb_one _ _ full

  merkle_damgard-84 :
      (hdr : List ℕ)
      → length hdr ≡ 84
      → merkle_damgard compress hdr
        ≡ state_to_be_bytes
            (compress (compress sha256_iv (take 64 hdr)) (inner_block (drop 64 hdr)))
  merkle_damgard-84 hdr e =
      merkle_damgard_of hdr 84 e
      ∙ ap (λ n. state_to_be_bytes (absorb compress (n / 64) sha256_iv (hdr ++ padding 84)))
          (padded_length hdr (padding 84) e length-padding-84)
      ∙ ap state_to_be_bytes (absorb-84 hdr e)

  -- A message of 32 bytes is one block.
  merkle_damgard-32 :
      (m : List ℕ)
      → length m ≡ 32
      → merkle_damgard compress m ≡ state_to_be_bytes (compress sha256_iv (outer_block m))
  merkle_damgard-32 m e =
      let full : length (m ++ padding 32) ≡ 64 = padded_length m (padding 32) e length-padding-32 in
      merkle_damgard_of m 32 e
      ∙ ap (λ n. state_to_be_bytes (absorb compress (n / 64) sha256_iv (m ++ padding 32))) full
      ∙ ap state_to_be_bytes (
          absorb_one sha256_iv (m ++ padding 32) full
          ∙ ap (compress sha256_iv) (outer_block-padding m))

  double_hash :
      (hdr : List ℕ)
      → length hdr ≡ 84
      → merkle_damgard compress (merkle_damgard compress hdr)
        ≡ state_to_be_bytes (
            compress sha256_iv (
              outer_block (
                state_to_be_bytes
                  (compress (compress sha256_iv (take 64 hdr)) (inner_block (drop 64 hdr))))))
  double_hash hdr e =
      let inner = merkle_damgard-84 hdr e in
      merkle_damgard-32 (merkle_damgard compress hdr) (ap length inner ∙ length-state_to_be_bytes _)
      ∙ ap (λ m. state_to_be_bytes (compress sha256_iv (outer_block m))) inner

-- The finisher written out in the source, run from the midstate of an 84-byte header, is the
-- double hash of FIPS 180-4 over the source's compression.
pub finish_sha256d_from_midstate_lem :
    (hdr : List ℕ)
    → length hdr ≡ 84
    → finish_sha256d_from_midstate (midstate_of_first_chunk hdr) (drop 64 hdr)
      ≡ merkle_damgard sha256_compress (merkle_damgard sha256_compress hdr)
unfolding finish_sha256d_from_midstate midstate_of_first_chunk
finish_sha256d_from_midstate_lem hdr e = sym (double_hash sha256_compress hdr e)

-- Finishing from the midstate of an 84-byte header over its last 20 bytes is the double hash of
-- the header, for any compression function whose digest follows FIPS 180-4.
pub finish_sha256d_from_midstate_fast_lem :
    (sha2 : Sha2) (hdr : List ℕ)
    → length hdr ≡ 84
    → finish_sha256d_from_midstate_fast sha2 (midstate_of_first_chunk_fast sha2 hdr) (drop 64 hdr)
      ≡ sha256d sha2 hdr
unfolding finish_sha256d_from_midstate_fast midstate_of_first_chunk_fast sha256d
finish_sha256d_from_midstate_fast_lem sha2 hdr e =
    let twice : sha2.digest (sha2.digest hdr)
        ≡ merkle_damgard sha2.compress256 (merkle_damgard sha2.compress256 hdr) =
      sha2.digest_fips (sha2.digest hdr)
      ∙ ap (merkle_damgard sha2.compress256) (sha2.digest_fips hdr) in
    sym (twice ∙ double_hash sha2.compress256 hdr e)

-- A double hash has 32 bytes.
pub length-sha256d : (sha2 : Sha2) (m : List ℕ) → length (sha256d sha2 m) ≡ 32
unfolding sha256d merkle_damgard
length-sha256d sha2 m = ap length (sha2.digest_fips (sha2.digest m)) ∙ length-state_to_be_bytes _
