-- ===== src/Autotune/Order.antt =====
-- src/backends/autotune.rs: the order of the measurements by rate and then by shape.
use csd_mining_pool_public.Prelude.{
  ℕ, ◌≡◌, refl, sym, ap₂, ◌∙◌, ◌⊎◌, inl, inr, Bool, true, false, not, ◌||◌, arith, ltb, ◌==◌,
  if◌then◌else◌,
}
use csd_mining_pool_public.Prelude.Int.{pos, negsuc}
use csd_mining_pool_public.Prelude.Float.{F64, nan, inf, neg_inf, num, is_finite, flt, fle, of_nat}
use csd_mining_pool_public.Autotune.{
  GeometryMeasurement, nonces_swept, shape_is_better, measurement_is_better, is_unusable,
}

-- The order of the tie-breakers on their numbers.
pub shape_order :
    (a b c d a' b' c' d' a'' b'' c'' d'' : ℕ)
    → (if not (a == a')
        then ltb a' a
        else if not (b == b')
        then ltb b' b
        else if not (c == c')
        then ltb c' c
        else ltb d' d)
      ≡ true
    → (if not (a' == a'')
        then ltb a'' a'
        else if not (b' == b'')
        then ltb b'' b'
        else if not (c' == c'')
        then ltb c'' c'
        else ltb d'' d')
      ≡ true
    → (if not (a == a'')
        then ltb a'' a
        else if not (b == b'')
        then ltb b'' b
        else if not (c == c'')
        then ltb c'' c
        else ltb d'' d)
      ≡ true
shape_order a b c d a' b' c' d' a'' b'' c'' d'' h k = ground arith

pub shape_is_better_trans :
    (x y z : GeometryMeasurement)
    → shape_is_better x y ≡ true
    → shape_is_better y z ≡ true
    → shape_is_better x z ≡ true
unfolding shape_is_better
shape_is_better_trans x y z h k =
    shape_order (nonces_swept x) x.blocks x.threads_per_block x.nonces_per_thread (nonces_swept y)
      y.blocks y.threads_per_block y.nonces_per_thread (nonces_swept z) z.blocks z.threads_per_block
      z.nonces_per_thread h k

-- A measurement that may win has a positive rate.
pub rate_of :
    (f : F64) → (not (is_finite f) || fle f (of_nat 0)) ≡ false → (n : ℕ) × (f ≡ num (pos n))
unfolding of_nat
rate_of nan h = absurd cc
rate_of inf h = absurd cc
rate_of neg_inf h = absurd cc
rate_of (num (pos n)) h = (n, refl)
rate_of (num (negsuc n)) h = absurd (ground arith)

pub rate_order :
    (n k l : ℕ) (s t u : Bool)
    → (s ≡ false) ⊎ (t ≡ false) ⊎ (u ≡ true)
    → (if flt (num (pos k)) (num (pos n))
        then true
        else if flt (num (pos n)) (num (pos k))
        then false
        else s)
      ≡ true
    → (if flt (num (pos l)) (num (pos k))
        then true
        else if flt (num (pos k)) (num (pos l))
        then false
        else t)
      ≡ true
    → (if flt (num (pos l)) (num (pos n))
        then true
        else if flt (num (pos n)) (num (pos l))
        then false
        else u)
      ≡ true
rate_order n k l s t u c h e = ground arith

pub chained :
    (s t u : Bool) → (s ≡ true → t ≡ true → u ≡ true) → (s ≡ false) ⊎ (t ≡ false) ⊎ (u ≡ true)
chained false t u f = inl refl
chained true false u f = inr (inl refl)
chained true true u f = inr (inr (f refl refl))

pub by_rates :
    (x y : GeometryMeasurement) (n k : ℕ)
    → x.mh_s ≡ num (pos n)
    → y.mh_s ≡ num (pos k)
    → measurement_is_better x y ≡ (
        if flt (num (pos k)) (num (pos n))
        then true
        else if flt (num (pos n)) (num (pos k))
        then false
        else shape_is_better x y)
unfolding measurement_is_better
by_rates x y n k p q =
    ap₂ (λ f g. if flt g f then true else if flt f g then false else shape_is_better x y) p q

abbrev pub Usable : GeometryMeasurement → Type 0
Usable m = is_unusable m ≡ false

pub better_trans :
    (x y z : GeometryMeasurement)
    → Usable x
    → Usable y
    → Usable z
    → measurement_is_better x y ≡ true
    → measurement_is_better y z ≡ true
    → measurement_is_better x z ≡ true
unfolding is_unusable
better_trans x y z ux uy uz h e =
    let (n, at_n) = rate_of x.mh_s ux in
    let (k, at_k) = rate_of y.mh_s uy in
    let (l, at_l) = rate_of z.mh_s uz in
    by_rates x z n l at_n at_l
    ∙ rate_order n k l (shape_is_better x y) (shape_is_better y z) (shape_is_better x z)
        (chained (shape_is_better x y) (shape_is_better y z) (shape_is_better x z)
          (shape_is_better_trans x y z))
        (sym (by_rates x y n k at_n at_k) ∙ h) (sym (by_rates y z k l at_k at_l) ∙ e)

pub shape_same : (x : GeometryMeasurement) → shape_is_better x x ≡ false
unfolding shape_is_better
shape_same x = ground arith

pub rate_same :
    (n : ℕ) (s : Bool)
    → s ≡ false
    → (if flt (num (pos n)) (num (pos n))
        then true
        else if flt (num (pos n)) (num (pos n))
        then false
        else s)
      ≡ false
rate_same n s h = ground arith

pub better_irrefl : (x : GeometryMeasurement) → Usable x → measurement_is_better x x ≡ false
unfolding is_unusable
better_irrefl x u =
    let (n, at_n) = rate_of x.mh_s u in
    by_rates x x n n at_n at_n ∙ rate_same n (shape_is_better x x) (shape_same x)
