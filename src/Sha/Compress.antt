-- ===== src/Sha/Compress.antt =====
-- The compression function, written out in src/sha256d_cpu.rs.
use Prim.Native.Nat.{bit_and, bit_xor}
use csd_mining_pool_public.Prelude.{
  ℕ, zero, suc, ◌+◌, ◌-◌, ◌*◌, ◌/◌, ◌%◌, ◌^◌, List, [], ◌∷◌, ◌++◌, get_or, wrapping_add,
}
use csd_mining_pool_public.Prelude.Bytes.{from_be_bytes}

pub record State : Type 0 where
  pub a : ℕ
  pub b : ℕ
  pub c : ℕ
  pub d : ℕ
  pub e : ℕ
  pub f : ℕ
  pub g : ℕ
  pub h : ℕ

unfoldable pub sha256_iv : State
sha256_iv = record {
  a = 0x6a09e667;
  b = 0xbb67ae85;
  c = 0x3c6ef372;
  d = 0xa54ff53a;
  e = 0x510e527f;
  f = 0x9b05688c;
  g = 0x1f83d9ab;
  h = 0x5be0cd19;
}

unfoldable pub sha256_k : List ℕ
sha256_k =
    0x428a2f98 ∷ 0x71374491 ∷ 0xb5c0fbcf ∷ 0xe9b5dba5 ∷ 0x3956c25b ∷ 0x59f111f1 ∷ 0x923f82a4
    ∷ 0xab1c5ed5 ∷ 0xd807aa98 ∷ 0x12835b01 ∷ 0x243185be ∷ 0x550c7dc3 ∷ 0x72be5d74 ∷ 0x80deb1fe
    ∷ 0x9bdc06a7 ∷ 0xc19bf174 ∷ 0xe49b69c1 ∷ 0xefbe4786 ∷ 0x0fc19dc6 ∷ 0x240ca1cc ∷ 0x2de92c6f
    ∷ 0x4a7484aa ∷ 0x5cb0a9dc ∷ 0x76f988da ∷ 0x983e5152 ∷ 0xa831c66d ∷ 0xb00327c8 ∷ 0xbf597fc7
    ∷ 0xc6e00bf3 ∷ 0xd5a79147 ∷ 0x06ca6351 ∷ 0x14292967 ∷ 0x27b70a85 ∷ 0x2e1b2138 ∷ 0x4d2c6dfc
    ∷ 0x53380d13 ∷ 0x650a7354 ∷ 0x766a0abb ∷ 0x81c2c92e ∷ 0x92722c85 ∷ 0xa2bfe8a1 ∷ 0xa81a664b
    ∷ 0xc24b8b70 ∷ 0xc76c51a3 ∷ 0xd192e819 ∷ 0xd6990624 ∷ 0xf40e3585 ∷ 0x106aa070 ∷ 0x19a4c116
    ∷ 0x1e376c08 ∷ 0x2748774c ∷ 0x34b0bcb5 ∷ 0x391c0cb3 ∷ 0x4ed8aa4a ∷ 0x5b9cca4f ∷ 0x682e6ff3
    ∷ 0x748f82ee ∷ 0x78a5636f ∷ 0x84c87814 ∷ 0x8cc70208 ∷ 0x90befffa ∷ 0xa4506ceb ∷ 0xbef9a3f7
    ∷ 0xc67178f2 ∷ []

-- `x.rotate_right(n)` of a `u32`, for 0 < n < 32.
unfoldable pub rotate_right : ℕ → ℕ → ℕ
rotate_right x n = x / 2 ^ n + x % 2 ^ n * 2 ^ (32 - n)

-- `!x` of a `u32`.
unfoldable pub complement : ℕ → ℕ
complement x = 2 ^ 32 - 1 - x

unfoldable pub small_sigma0 : ℕ → ℕ
unfolding rotate_right
small_sigma0 x = bit_xor (bit_xor (rotate_right x 7) (rotate_right x 18)) (x / 2 ^ 3)

unfoldable pub small_sigma1 : ℕ → ℕ
unfolding rotate_right
small_sigma1 x = bit_xor (bit_xor (rotate_right x 17) (rotate_right x 19)) (x / 2 ^ 10)

-- The word of the four bytes from index `i` on.
unfoldable pub be_word : List ℕ → ℕ → ℕ
unfolding from_be_bytes
be_word block i = from_be_bytes (
    get_or block i 0
    ∷ get_or block (i + 1) 0
    ∷ get_or block (i + 2) 0
    ∷ get_or block (i + 3) 0
    ∷ [])

-- The first 16 words of the schedule, from word `i` on.
unfoldable pub block_words : ℕ → ℕ → List ℕ → List ℕ
unfolding be_word
block_words zero i block = []
block_words (suc n) i block = be_word block (4 * i) ∷ block_words n (i + 1) block

-- `w[i]` from the words before it.
unfoldable pub next_word : List ℕ → ℕ → ℕ
unfolding small_sigma0 small_sigma1
next_word w i =
    wrapping_add
      (wrapping_add (wrapping_add (get_or w (i - 16) 0) (small_sigma0 (get_or w (i - 15) 0)))
        (get_or w (i - 7) 0))
      (small_sigma1 (get_or w (i - 2) 0))

-- The loop over `i`, with `n` words to go; the array is the words that it has filled.
unfoldable pub extend_words : ℕ → ℕ → List ℕ → List ℕ
unfolding next_word
extend_words zero i w = w
extend_words (suc n) i w = extend_words n (i + 1) (w ++ next_word w i ∷ [])

unfoldable pub message_schedule : List ℕ → List ℕ
message_schedule block = extend_words 48 16 (block_words 16 0 block)

-- One round, with its constant `k` and its word `w`.
unfoldable pub sha256_round : ℕ → ℕ → State → State
unfolding rotate_right complement
sha256_round k w s =
    let s1 = bit_xor (bit_xor (rotate_right s.e 6) (rotate_right s.e 11)) (rotate_right s.e 25) in
    let ch = bit_xor (bit_and s.e s.f) (bit_and (complement s.e) s.g) in
    let t1 = wrapping_add (wrapping_add (wrapping_add (wrapping_add s.h s1) ch) k) w in
    let s0 = bit_xor (bit_xor (rotate_right s.a 2) (rotate_right s.a 13)) (rotate_right s.a 22) in
    let maj = bit_xor (bit_xor (bit_and s.a s.b) (bit_and s.a s.c)) (bit_and s.b s.c) in
    let t2 = wrapping_add s0 maj in
    record {
      a = wrapping_add t1 t2;
      b = s.a;
      c = s.b;
      d = s.c;
      e = wrapping_add s.d t1;
      f = s.e;
      g = s.f;
      h = s.g;
    }

-- The rounds from round `i` on, one for each given word.
unfoldable pub rounds_over : ℕ → List ℕ → State → State
unfolding sha256_round
rounds_over i [] s = s
rounds_over i (w ∷ ws) s = rounds_over (i + 1) ws (sha256_round (get_or sha256_k i 0) w s)

-- `state[i] = state[i].wrapping_add(..)`.
unfoldable pub add_states : State → State → State
add_states s t = record {
  a = wrapping_add s.a t.a;
  b = wrapping_add s.b t.b;
  c = wrapping_add s.c t.c;
  d = wrapping_add s.d t.d;
  e = wrapping_add s.e t.e;
  f = wrapping_add s.f t.f;
  g = wrapping_add s.g t.g;
  h = wrapping_add s.h t.h;
}

unfoldable pub sha256_compress : State → List ℕ → State
sha256_compress state block = add_states state (rounds_over 0 (message_schedule block) state)
