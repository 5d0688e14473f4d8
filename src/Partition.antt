-- ===== src/Partition.antt =====
-- src/mining_config.rs: the split of a nonce range between the GPU and the CPU threads. The `f32`
-- arithmetic on the share is the parameter `Share`.
pub mod Tiles
use csd_mining_pool_public.Prelude.{
  ℕ, zero, suc, ◌+◌, ◌-◌, ◌/◌, ◌%◌, min, max, Bool, not, ◌&&◌, ◌||◌, List, [], ◌∷◌, ltb, leb,
  if◌then◌else◌, u32,
}

-- The clamped share: whether it is above 0.0, whether it is 1.0 up to `f32::EPSILON`, and the
-- rounded product with a total.
pub record Share : Type 0 where
  pub above_zero : Bool
  pub is_one : Bool
  pub rounded : ℕ → ℕ

-- The nonces of the CPU pool.
unfoldable pub cpu_total : Share → ℕ → ℕ
cpu_total share total =
    if share.is_one then total else max (min (share.rounded total) (total - 1)) 1

-- The loop over the threads, with `left` to go, from thread `i` on.
unfoldable pub chunk_ranges : ℕ → ℕ → ℕ → ℕ → ℕ → ℕ → List (ℕ × ℕ)
chunk_ranges zero i cursor chunk remainder nonce_end = []
chunk_ranges (suc left) i cursor chunk remainder nonce_end =
    let extra : ℕ = if ltb i remainder then 1 else 0 in
    let end = min (cursor + (chunk + extra)) nonce_end in
    (u32 cursor, u32 end) ∷ chunk_ranges left (i + 1) end chunk remainder nonce_end

-- `last.1 = nonce_end`.
unfoldable pub land_last : ℕ → List (ℕ × ℕ) → List (ℕ × ℕ)
land_last nonce_end [] = []
land_last nonce_end ((a, b) ∷ []) = (a, nonce_end) ∷ []
land_last nonce_end (r ∷ s ∷ ranges) = r ∷ land_last nonce_end (s ∷ ranges)

unfoldable pub partition_nonce_range : ℕ → ℕ → Share → ℕ → (ℕ × ℕ) × List (ℕ × ℕ)
partition_nonce_range nonce_start nonce_end share cpu_threads =
    let total = nonce_end - nonce_start in
    let cpu = cpu_total share total in
    let gpu_end = u32 (min (nonce_start + (total - cpu)) nonce_end) in
    if leb nonce_end nonce_start
    then ((nonce_start, nonce_start), [])
    else if not (ltb 0 cpu_threads && share.above_zero)
    then ((nonce_start, nonce_end), [])
    else (
      (nonce_start, gpu_end),
      land_last nonce_end
          (chunk_ranges cpu_threads 0 gpu_end (cpu / cpu_threads) (cpu % cpu_threads) nonce_end),
    )
