-- ===== src/Tests/Rates.antt =====
-- Rates with a division of `f64` that cuts off what is below 2 ^ -1074.
use native.Mathlib.Nat.{zero-div}
use csd_mining_pool_public.Prelude.{
  ℕ, zero, suc, ◌*◌, ◌/◌, ◌^◌, ◌≤◌, ◌<◌, ◌≡◌, refl, ap, ◌∙◌, true, arith, ltb, lt→ltb, ◌==◌,
  if◌then◌else◌, from_secs,
}
use csd_mining_pool_public.Prelude.Int.{pos, negsuc}
use csd_mining_pool_public.Prelude.Float.{F64, nan, inf, neg_inf, num, flt, of_nat}
use csd_mining_pool_public.Mining.Turn.{RateOps}
use csd_mining_pool_public.Mining.Turn.Faults.{ZeroRates}

-- For operands that are not negative.
abbrev quotient : F64 → F64 → F64
quotient (num (pos a)) (num (pos zero)) = if a == 0 then nan else inf
quotient (num (pos a)) (num (pos (suc b))) = num (pos (a * 2 ^ 1074 / suc b))
quotient (num (pos a)) inf = num (pos 0)
quotient _ _ = nan

abbrev pub rates : RateOps
rates = record {
  of_u128 = λ n. of_nat n;
  as_secs_f64 = λ ns. num (pos (ns * (2 ^ 1074 / 1_000_000_000)));
  div = quotient;
  add = λ a b. a;
}

positive : (n : ℕ) → flt (of_nat 0) (num (pos n)) ≡ ltb 0 n
unfolding of_nat
positive n = ground arith

zero_quotient : (d : F64) → flt (of_nat 0) d ≡ true → quotient (of_nat 0) d ≡ of_nat 0
unfolding of_nat
zero_quotient nan h = absurd cc
zero_quotient inf h = refl
zero_quotient neg_inf h = absurd cc
zero_quotient (num (pos zero)) h = absurd (ground arith)
zero_quotient (num (pos (suc n))) h = ap (λ k. num (pos k)) (zero-div (suc n))
zero_quotient (num (negsuc n)) h = absurd (ground arith)

positive_product : (a b : ℕ) → 0 < a → 0 < b → 0 < a * b
positive_product a b h k = grind arith

positive_secs :
    (k elapsed : ℕ)
    → 0 < k
    → from_secs 10 ≤ elapsed
    → flt (of_nat 0) (num (pos (elapsed * k))) ≡ true
positive_secs k elapsed some_k long =
    positive (elapsed * k)
    ∙ lt→ltb 0 (elapsed * k) (positive_product elapsed k (omega (arith, long)) some_k)

pub rates-ZeroRates : ZeroRates rates
rates-ZeroRates = record {
  of_zero = refl;
  zero_div = zero_quotient;
  some_secs = λ elapsed long. positive_secs (2 ^ 1074 / 1_000_000_000) elapsed (omega arith) long;
}
