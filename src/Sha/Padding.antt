-- ===== src/Sha/Padding.antt =====
-- FIPS 180-4 for any compression function: the padding of a message, its blocks in order, and the
-- digest as the bytes of the last state. This is the reference that the crate is held to.
use csd_mining_pool_public.Prelude.{
  ℕ, zero, suc, ◌-◌, ◌*◌, ◌/◌, ◌%◌, List, ◌∷◌, ◌++◌, length, take, drop, replicate,
}
use csd_mining_pool_public.Prelude.Bytes.{to_be_bytes}
use csd_mining_pool_public.Sha.Compress.{State, sha256_iv}

-- The bytes after a message of `n` bytes: a one bit, zeros up to 56 modulo 64, and the length in
-- bits as 8 bytes.
unfoldable pub padding : ℕ → List ℕ
padding n = 0x80 ∷ replicate ((119 - n % 64) % 64) 0 ++ to_be_bytes 8 (n * 8)

unfoldable pub state_to_be_bytes : State → List ℕ
state_to_be_bytes s =
    to_be_bytes 4 s.a
    ++ (to_be_bytes 4 s.b
        ++ (to_be_bytes 4 s.c
            ++ (to_be_bytes 4 s.d
                ++ (to_be_bytes 4 s.e
                    ++ (to_be_bytes 4 s.f ++ (to_be_bytes 4 s.g ++ to_be_bytes 4 s.h))))))

module _ (compress : State → List ℕ → State) where
  -- `n` blocks of 64 bytes, in order.
  unfoldable pub absorb : ℕ → State → List ℕ → State
  absorb zero state bytes = state
  absorb (suc n) state bytes = absorb n (compress state (take 64 bytes)) (drop 64 bytes)

  unfoldable pub merkle_damgard : List ℕ → List ℕ
  merkle_damgard m =
      let padded = m ++ padding (length m) in
      state_to_be_bytes (absorb (length padded / 64) sha256_iv padded)
