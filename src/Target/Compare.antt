-- ===== src/Target/Compare.antt =====
-- src/stratum/loop_stratum.rs: the comparison of a hash with a target, on numbers.
use csd_mining_pool_public.Prelude.{
  ℕ, ◌+◌, ◌*◌, ◌^◌, ◌<◌, ap, ◌≤◌, ◌≡◌, refl, ◌↔◌, true, List, [], ◌∷◌, length, arith,
}
use csd_mining_pool_public.Prelude.Bytes.{IsBytes, from_be_bytes, from_be_bytes-lt}
use csd_mining_pool_public.Target.{hash_leq_target}

decided_low : (h t p x y : ℕ) → h < t → x < p → h * p + x ≤ t * p + y
decided_low h t p x y lt b = grind arith

decided_high : (h t p x y : ℕ) → t < h → y < p → t * p + y < h * p + x
decided_high h t p x y lt b = grind arith

-- For byte strings of one length, the comparison passes exactly if the hash is at most the target
-- as big-endian numbers.
pub hash_leq_target_iff :
    (hash target : List ℕ)
    → IsBytes hash
    → IsBytes target
    → length hash ≡ length target
    → (hash_leq_target hash target ≡ true) ↔ (from_be_bytes hash ≤ from_be_bytes target)
unfolding hash_leq_target from_be_bytes
hash_leq_target_iff [] [] hb tb e = ((λ _. omega arith), (λ _. refl))
hash_leq_target_iff [] (t ∷ target) hb tb e = absurd (omega arith)
hash_leq_target_iff (h ∷ hash) [] hb tb e = absurd (omega arith)
hash_leq_target_iff (h ∷ hash) (t ∷ target) hb tb e =
    let same : length hash ≡ length target = omega arith in
    let p : 256 ^ length hash ≡ 256 ^ length target = ap (λ (n : ℕ). 256 ^ n) same in
    ground (
      arith,
      p,
      decided_low h t (256 ^ length target) (from_be_bytes hash) (from_be_bytes target),
      decided_high h t (256 ^ length target) (from_be_bytes hash) (from_be_bytes target),
      from_be_bytes-lt hash hb.1,
      from_be_bytes-lt target tb.1,
      hash_leq_target_iff hash target hb.1 tb.1 same,
    )
