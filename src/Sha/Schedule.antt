-- ===== src/Sha/Schedule.antt =====
-- The schedule and the rounds cut in two: the first words or rounds, then the others.
use mathlib.Core.List.{append_assoc}
use csd_mining_pool_public.Prelude.{
  ℕ, zero, suc, ◌+◌, ◌≡◌, refl, ap, ◌∙◌, List, [], ◌∷◌, ◌++◌, length, get_or, arith,
}
use csd_mining_pool_public.Sha.Compress.{
  State, next_word, extend_words, sha256_round, sha256_k, rounds_over,
}

-- The first `n` elements from index `i` on, as a list that computes at a numeral `n`.
abbrev pub elements : ℕ → ℕ → List ℕ → List ℕ
elements zero i xs = []
elements (suc n) i xs = get_or xs i 0 ∷ elements n (suc i) xs

elements-cons : (n i x : ℕ) (xs : List ℕ) → elements n (suc i) (x ∷ xs) ≡ elements n i xs
elements-cons zero i x xs = refl
elements-cons (suc n) i x xs = ap (◌∷◌ (get_or xs i 0)) (elements-cons n (suc i) x xs)

-- A list is its elements.
pub elements_all : (n : ℕ) (xs : List ℕ) → length xs ≡ n → elements n 0 xs ≡ xs
elements_all zero [] h = refl
elements_all zero (x ∷ xs) h = absurd (omega arith)
elements_all (suc n) [] h = absurd (omega arith)
elements_all (suc n) (x ∷ xs) h =
    ap (◌∷◌ x) (elements-cons n 0 x xs ∙ elements_all n xs (omega arith))

pub extend_words_step :
    (n i : ℕ) (w : List ℕ)
    → extend_words (suc n) i w ≡ extend_words n (i + 1) (w ++ next_word w i ∷ [])
unfolding extend_words
extend_words_step n i w = refl

pub rounds_over_step :
    (i w : ℕ) (ws : List ℕ) (s : State)
    → rounds_over i (w ∷ ws) s ≡ rounds_over (i + 1) ws (sha256_round (get_or sha256_k i 0) w s)
unfolding rounds_over
rounds_over_step i w ws s = refl

-- Words that the schedule starts with stay in front.
pub extend_words_front :
    (n i : ℕ) (front w : List ℕ) → (rest : List ℕ) × (extend_words n i (front ++ w) ≡ front ++ rest)
unfolding extend_words
extend_words_front zero i front w = (w, refl)
extend_words_front (suc n) i front w =
    let next = next_word (front ++ w) i ∷ [] in
    let (rest, e) = extend_words_front n (i + 1) front (w ++ next) in
    (rest, ap (extend_words n (i + 1)) (append_assoc front w next) ∙ e)
