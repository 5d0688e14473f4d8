-- ===== src/Sha/Prefix.antt =====
-- src/sha256d_cpu.rs: the precomputed prefix against the compression.
use mathlib.Core.List.{append_assoc}
use csd_mining_pool_public.Prelude.{
  ℕ, ◌≡◌, refl, ap, ◌∙◌, List, [], ◌∷◌, ◌++◌, length, drop, get_or, arith, wrapping_add,
}
use csd_mining_pool_public.Prelude.Bytes.{to_be_bytes, to_le_bytes}
use csd_mining_pool_public.Sha.Compress.{
  State, block_words, next_word, extend_words, message_schedule, rounds_over, add_states,
  sha256_compress,
}
use csd_mining_pool_public.Sha.Schedule.{
  elements, elements_all, extend_words_step, extend_words_front,
}
use csd_mining_pool_public.Sha.{inner_block, inner_prefix_precompute}

wrapping_add_zero : (a b : ℕ) → wrapping_add (wrapping_add a b) 0 ≡ wrapping_add a b
wrapping_add_zero a b = omega arith

abbrev block_of : List ℕ → List ℕ → List ℕ
block_of t n = elements 16 0 t ++ elements 4 0 n

-- The words that the precomputation gives, over the elements of the tail.
abbrev given : State → List ℕ → List ℕ
given s t = (inner_prefix_precompute s (elements 16 0 t)).sched3

abbrev first16 : List ℕ → List ℕ → List ℕ
first16 t n = block_words 16 0 (inner_block (block_of t n))

word16 : (s : State) (t n : List ℕ) → next_word (first16 t n) 16 ≡ get_or (given s t) 0 0
unfolding next_word block_words inner_block to_be_bytes to_le_bytes inner_prefix_precompute
word16 s t n = omega arith

word17 :
    (s : State) (t n : List ℕ) (w16 : ℕ)
    → next_word (first16 t n ++ w16 ∷ []) 17 ≡ get_or (given s t) 1 0
unfolding next_word block_words inner_block to_be_bytes to_le_bytes inner_prefix_precompute
word17 s t n w16 = omega arith

word18 :
    (s : State) (t n : List ℕ) (w17 : ℕ)
    → next_word ((first16 t n ++ get_or (given s t) 0 0 ∷ []) ++ w17 ∷ []) 18
      ≡ get_or (given s t) 2 0
unfolding next_word block_words inner_block to_be_bytes to_le_bytes inner_prefix_precompute
word18 s t n w17 = omega arith

three_steps :
    (w : List ℕ) (x y z : ℕ)
    → next_word w 16 ≡ x
    → next_word (w ++ x ∷ []) 17 ≡ y
    → next_word ((w ++ x ∷ []) ++ y ∷ []) 18 ≡ z
    → extend_words 48 16 w ≡ extend_words 45 19 (w ++ (x ∷ y ∷ z ∷ []))
three_steps w x y z ex ey ez =
    rw (extend_words_step 47 16 w, ex, extend_words_step 46 17, ey, extend_words_step 45 18, ez)
      (ap (extend_words 45 19)
        (append_assoc (w ++ x ∷ []) (y ∷ []) (z ∷ []) ∙ append_assoc w (x ∷ []) (y ∷ z ∷ [])))

schedule_resumed :
    (s : State) (t n : List ℕ)
    → message_schedule (inner_block (block_of t n))
      ≡ extend_words 45 19 (
          first16 t n
          ++ (get_or (given s t) 0 0 ∷ get_or (given s t) 1 0 ∷ get_or (given s t) 2 0 ∷ []))
unfolding message_schedule
schedule_resumed s t n =
    three_steps (first16 t n) (get_or (given s t) 0 0) (get_or (given s t) 1 0)
      (get_or (given s t) 2 0) (word16 s t n) (word17 s t n _) (word18 s t n _)

three_given : (s : State) (t : List ℕ) → given s t ≡ elements 3 0 (given s t)
unfolding inner_prefix_precompute
three_given s t = refl

rounds_split :
    (w0 w1 w2 w3 : ℕ) (rest : List ℕ) (s : State)
    → rounds_over 0 (w0 ∷ w1 ∷ w2 ∷ w3 ∷ rest) s
      ≡ rounds_over 4 rest (rounds_over 0 (w0 ∷ w1 ∷ w2 ∷ w3 ∷ []) s)
unfolding rounds_over
rounds_split w0 w1 w2 w3 rest s = refl

rounds_over-extend_words :
    (w0 w1 w2 w3 : ℕ) (ws : List ℕ) (s : State)
    → let w = extend_words 48 16 (w0 ∷ w1 ∷ w2 ∷ w3 ∷ ws) in
      rounds_over 0 w s ≡ rounds_over 4 (drop 4 w) (rounds_over 0 (w0 ∷ w1 ∷ w2 ∷ w3 ∷ []) s)
rounds_over-extend_words w0 w1 w2 w3 ws s =
    let (rest, e) = extend_words_front 48 16 (w0 ∷ w1 ∷ w2 ∷ w3 ∷ []) ws in
    rw e (rounds_split w0 w1 w2 w3 rest s)

rounds_resumed :
    (s : State) (t n : List ℕ)
    → rounds_over 0 (message_schedule (inner_block (block_of t n))) s
      ≡ rounds_over 4
          (drop 4 (message_schedule (inner_block (block_of t n))))
          (inner_prefix_precompute s (elements 16 0 t)).prefix_state
unfolding message_schedule block_words inner_block to_be_bytes to_le_bytes inner_prefix_precompute
rounds_resumed s t n = rounds_over-extend_words _ _ _ _ _ s

-- For a 16-byte tail and a 4-byte nonce, the schedule resumes from the 16 words and the three
-- precomputed ones, and the compression is rounds 4 to 63 from the precomputed state, added to the
-- midstate.
pub inner_prefix_precompute_lem :
    (midstate : State) (tail_16 nonce : List ℕ)
    → length tail_16 ≡ 16
    → length nonce ≡ 4
    → let p = inner_prefix_precompute midstate tail_16 in
      let block = inner_block (tail_16 ++ nonce) in
      let w = message_schedule block in
      (w ≡ extend_words 45 19 (block_words 16 0 block ++ p.sched3))
      × (sha256_compress midstate block
          ≡ add_states midstate (rounds_over 4 (drop 4 w) p.prefix_state))
unfolding sha256_compress
inner_prefix_precompute_lem midstate tail_16 nonce t16 n4 =
    rw (← elements_all 16 tail_16 t16, ← elements_all 4 nonce n4)
      (
        rw three_given (schedule_resumed midstate tail_16 nonce),
        ap (add_states midstate) (rounds_resumed midstate tail_16 nonce),
      )
