-- ===== src/Prelude/Float.antt =====
-- `f64` by value. Every finite `f64` is a multiple of 2 ^ -1074, and `num` keeps the multiple, so
-- the comparisons below are those of IEEE 754. The two zeros have one value; no code here tells
-- them apart.
use Prim.Native.Nat.{ℕ, ◌*◌, ◌^◌}
use mathlib.Core.Bool.{Bool, true, false}
use csd_mining_pool_public.Prelude.Int.{ℤ, pos, ltb_ℤ, leb_ℤ}
use csd_mining_pool_public.Prelude.Tests.{if◌then◌else◌}

pub data F64 : Type 0 where
  nan : F64
  inf : F64
  neg_inf : F64
  num : ℤ → F64

abbrev pub is_nan : F64 → Bool
is_nan nan = true
is_nan _ = false

abbrev pub is_finite : F64 → Bool
is_finite (num a) = true
is_finite _ = false

-- `a < b`. Every comparison with NaN is false.
abbrev pub flt : F64 → F64 → Bool
flt (num a) (num b) = ltb_ℤ a b
flt (num a) inf = true
flt neg_inf (num b) = true
flt neg_inf inf = true
flt _ _ = false

-- `a <= b`.
abbrev pub fle : F64 → F64 → Bool
fle (num a) (num b) = leb_ℤ a b
fle (num a) inf = true
fle neg_inf (num b) = true
fle neg_inf inf = true
fle neg_inf neg_inf = true
fle inf inf = true
fle _ _ = false

-- `f64::max`, which gives the other operand if one is NaN.
unfoldable pub fmax : F64 → F64 → F64
fmax a b = if is_nan a then b else if is_nan b then a else if fle a b then b else a

-- The literal `n.0`.
unfoldable pub of_nat : ℕ → F64
of_nat n = num (pos (n * 2 ^ 1074))
