-- ===== src/Thermal/Hysteresis.antt =====
-- src/thermal.rs, one sample: the thresholds, and the configuration that holds them.
use csd_mining_pool_public.Prelude.{
  ℕ, Bool, true, false, not, ◌||◌, ◌≡◌, refl, ◌↔◌, Option, none, some, arith, if◌then◌else◌,
  Bool-cases, inl, inr,
}
use csd_mining_pool_public.Prelude.Int.{pos, negsuc}
use csd_mining_pool_public.Prelude.Float.{F64, nan, inf, neg_inf, num, flt, fle, fmax, of_nat}
use csd_mining_pool_public.Thermal.{
  ThermalCfg, ThermalState, running, paused, known, on_sample, thermal_decision, resume_below,
  build_thermal_cfg, default_hysteresis_c,
}

-- Above the threshold that counts: the resume threshold if paused, else the limit.
abbrev pub too_warm : Bool → F64 → ThermalCfg → Bool
too_warm true temp cfg = not (fle temp cfg.resume_c)
too_warm false temp cfg = flt cfg.limit_c temp

abbrev pub too_hot : Bool → Option F64 → ThermalCfg → Bool
too_hot gate none cfg = false
too_hot gate (some temp) cfg = too_warm gate temp cfg

on_sample_iff :
    (gate : Bool) (o : Option F64) (cfg : ThermalCfg)
    → (on_sample gate o cfg ≡ paused) ↔ (too_hot gate o cfg ≡ true)
unfolding on_sample
on_sample_iff gate none cfg = ((λ e. absurd cc), (λ e. absurd cc))
on_sample_iff true (some temp) cfg = ground arith
on_sample_iff false (some temp) cfg = ground arith

-- The throttle pauses exactly if it is on and a known temperature is above the resume threshold of
-- a paused gate, or the limit of a running one.
pub thermal_decision_iff :
    (gate : Bool) (temp_c : Option F64) (cfg : ThermalCfg)
    → (thermal_decision gate temp_c cfg ≡ paused)
      ↔ ((cfg.enabled ≡ true) × (too_hot gate (known temp_c) cfg ≡ true))
unfolding thermal_decision
thermal_decision_iff gate temp_c cfg = by_known cfg.enabled (on_sample_iff gate (known temp_c) cfg)
  where
    by_known :
        {x : ThermalState} {P : Type 0} (on : Bool)
        → ((x ≡ paused) ↔ P)
        → ((if not on then running else x) ≡ paused) ↔ ((on ≡ true) × P)
    by_known true i = ((λ e. (refl, i.0 e)), (λ t. i.1 t.1))
    by_known false i = ((λ e. absurd cc), (λ t. absurd cc))

fmax_below : (a l : F64) → flt a l ≡ true → flt (fmax a (of_nat 0)) l ≡ flt (of_nat 0) l
unfolding fmax of_nat
fmax_below nan l h = absurd cc
fmax_below inf l h = absurd cc
fmax_below neg_inf l h = refl
fmax_below (num a) nan h = absurd cc
fmax_below (num a) neg_inf h = absurd cc
fmax_below (num a) inf h = ground arith
fmax_below (num (pos a)) (num (pos b)) h = ground arith
fmax_below (num (pos a)) (num (negsuc b)) h = ground arith
fmax_below (num (negsuc a)) (num (pos b)) h = ground arith
fmax_below (num (negsuc a)) (num (negsuc b)) h = ground arith

-- The operator's own threshold, if it is below the limit.
abbrev pub has_gap : Option F64 → F64 → Bool
has_gap none limit = false
has_gap (some r) limit = flt r limit

-- Where taking 5.0 from the limit gives less than the limit, the built thresholds are in order
-- exactly if the operator's are or the limit is above zero.
pub build_thermal_cfg_gap :
    (sub : F64 → F64 → F64) (limit : F64) (resume_c : Option F64) (secs : Option ℕ)
    → flt (sub limit default_hysteresis_c) limit ≡ true
    → let cfg = build_thermal_cfg sub (some limit) resume_c secs in
      flt cfg.resume_c cfg.limit_c ≡ (has_gap resume_c limit || flt (of_nat 0) limit)
unfolding build_thermal_cfg resume_below
build_thermal_cfg_gap sub limit none secs h = fmax_below (sub limit default_hysteresis_c) limit h
build_thermal_cfg_gap sub limit (some r) secs h = elim (Bool-cases (flt r limit)) [
  | inl below ↦ rw below below
  | inr above ↦ rw above (fmax_below (sub limit default_hysteresis_c) limit h)
]
