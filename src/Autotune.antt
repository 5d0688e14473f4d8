-- ===== src/Autotune.antt =====
-- src/backends/autotune.rs: the candidate geometries and the choice among their measurements.
pub mod Best
pub mod Cache
pub mod Order
use csd_mining_pool_public.Prelude.{
  ℕ, ◌*◌, Bool, true, false, not, ◌||◌, Option, none, some, List, [], ◌∷◌, ltb, ◌==◌, if◌then◌else◌,
  u64,
}
use csd_mining_pool_public.Prelude.Float.{F64, is_finite, flt, fle, of_nat}

pub record GeometryMeasurement : Type 0 where
  pub blocks : ℕ
  pub threads_per_block : ℕ
  pub nonces_per_thread : ℕ
  pub mh_s : F64

unfoldable pub nonces_swept : GeometryMeasurement → ℕ
nonces_swept m = u64 (u64 (m.blocks * m.threads_per_block) * m.nonces_per_thread)

-- (blocks, threads per block, nonces per thread).
abbrev pub candidate_geometries : List (ℕ × ℕ × ℕ)
candidate_geometries =
    (256, 256, 4096)
    ∷ (512, 256, 2048)
    ∷ (560, 256, 4096)
    ∷ (1024, 256, 2048)
    ∷ (2048, 256, 1024)
    ∷ (4096, 256, 512)
    ∷ (1024, 512, 1024)
    ∷ []

-- The tie-breakers.
unfoldable pub shape_is_better : GeometryMeasurement → GeometryMeasurement → Bool
unfolding nonces_swept
shape_is_better a b =
    if not (nonces_swept a == nonces_swept b)
    then ltb (nonces_swept b) (nonces_swept a)
    else if not (a.blocks == b.blocks)
    then ltb b.blocks a.blocks
    else if not (a.threads_per_block == b.threads_per_block)
    then ltb b.threads_per_block a.threads_per_block
    else ltb b.nonces_per_thread a.nonces_per_thread

unfoldable pub measurement_is_better : GeometryMeasurement → GeometryMeasurement → Bool
measurement_is_better a b =
    if flt b.mh_s a.mh_s then true else if flt a.mh_s b.mh_s then false else shape_is_better a b

-- The test that skips a measurement.
unfoldable pub is_unusable : GeometryMeasurement → Bool
is_unusable m = not (is_finite m.mh_s) || fle m.mh_s (of_nat 0)

-- The match on the best so far.
unfoldable pub take_better :
    Option GeometryMeasurement → GeometryMeasurement → Option GeometryMeasurement
take_better none m = some m
take_better (some b) m = if measurement_is_better m b then some m else some b

-- The loop, from the best so far.
unfoldable pub pick_from :
    Option GeometryMeasurement → List GeometryMeasurement → Option GeometryMeasurement
unfolding is_unusable take_better
pick_from best [] = best
pick_from best (m ∷ ms) = pick_from (if is_unusable m then best else take_better best m) ms

unfoldable pub pick_best : List GeometryMeasurement → Option GeometryMeasurement
unfolding pick_from
pick_best ms = pick_from none ms
