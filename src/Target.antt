-- ===== src/Target.antt =====
-- src/stratum/loop_stratum.rs: the share target of a difficulty, the comparison of a hash with a
-- target, and the suggested difficulty. A target is 32 bytes, the most significant first. `f64`
-- arithmetic that rounds is a parameter.
pub mod Division
pub mod Compare
use Prim.Native.Nat.{bit_or}
use csd_mining_pool_public.Prelude.{
  ℕ, ◌+◌, ◌*◌, ◌/◌, ◌%◌, ◌^◌, Bool, true, false, not, ◌||◌, List, [], ◌∷◌, ◌++◌, Option, none, some,
  replicate, ltb, leb, if◌then◌else◌, u8,
}
use csd_mining_pool_public.Prelude.Float.{F64, is_finite, flt, fle, fmax, of_nat}

unfoldable pub pdiff1_be : List ℕ
pdiff1_be = replicate 4 0 ++ (0xff ∷ 0xff ∷ replicate 26 0)

-- The loop over the bytes of the dividend, with the remainder `rem` of those before.
unfoldable pub div_bytes : ℕ → ℕ → List ℕ → List ℕ
div_bytes div rem [] = []
div_bytes div rem (b ∷ bs) =
    let acc = bit_or (rem * 2 ^ 8) b in u8 (acc / div) ∷ div_bytes div (acc % div) bs

unfoldable pub u256_div_u64_be : List ℕ → ℕ → List ℕ
unfolding div_bytes
u256_div_u64_be dividend divisor = div_bytes divisor 0 dividend

-- `hash <= target` byte by byte; both have 32 bytes.
unfoldable pub hash_leq_target : List ℕ → List ℕ → Bool
hash_leq_target (h ∷ hash) (t ∷ target) =
    if ltb h t then true else if ltb t h then false else hash_leq_target hash target
hash_leq_target _ _ = true

-- The operations of `f64` that round, and the cast to `u64`.
pub record Rounding : Type 0 where
  pub round : F64 → F64
  pub mul : F64 → F64 → F64
  pub div : F64 → F64 → F64
  pub as_u64 : F64 → ℕ

unfoldable pub target_from_difficulty : Rounding → F64 → List ℕ
unfolding pdiff1_be u256_div_u64_be
target_from_difficulty r d =
    let divisor = if fle d (of_nat 0) then 1 else r.as_u64 (fmax (r.round d) (of_nat 1)) in
    if leb divisor 1 then pdiff1_be else u256_div_u64_be pdiff1_be divisor

abbrev pub hashes_per_pdiff1_share : F64
hashes_per_pdiff1_share = of_nat 4_294_967_296

unfoldable pub suggested_difficulty : Rounding → F64 → F64 → F64
suggested_difficulty r hashrate_hps target_secs =
    if not (is_finite hashrate_hps)
      || fle hashrate_hps (of_nat 0)
      || not (is_finite target_secs)
      || fle target_secs (of_nat 0)
    then of_nat 1
    else let d = r.div (r.mul hashrate_hps target_secs) hashes_per_pdiff1_share in
      if not (is_finite d) then of_nat 1 else fmax d (of_nat 1)

abbrev pub pool_default_start_difficulty : F64
pool_default_start_difficulty = of_nat 8

abbrev pub max_suggest_difficulty : F64
max_suggest_difficulty = of_nat 100_000

unfoldable pub guarded_suggestion : F64 → F64 → Option F64
guarded_suggestion d pool_default =
    if not (is_finite d) || fle d (of_nat 0)
    then none
    else if fle d pool_default
    then none
    else if flt max_suggest_difficulty d
    then none
    else some d
