-- ===== src/Partition/Tiles.antt =====
-- src/mining_config.rs: the ranges of a launch, one after the other.
use native.Mathlib.Nat.{div-add-mod', mod-lt}
use csd_mining_pool_public.Prelude.{
  ℕ, zero, suc, ◌+◌, ◌-◌, ◌*◌, ◌/◌, ◌%◌, ◌^◌, ◌≤◌, ◌<◌, min, ◌≡◌, refl, sym, ap, subst, inl, inr,
  false, ◌&&◌, List, [], ◌∷◌, ltb, leb, if◌then◌else◌, u32, arith, Bool-cases,
}
use csd_mining_pool_public.Partition.{
  Share, cpu_total, chunk_ranges, land_last, partition_nonce_range,
}

-- Each range starts where the last one ends, the first at `a` and the last at `b`.
abbrev pub Tile : ℕ → ℕ → List (ℕ × ℕ) → Type 0
Tile a b [] = a ≡ b
Tile a b (r ∷ ranges) = (r.0 ≡ a) × (a ≤ r.1) × Tile r.1 b ranges

-- No range is longer than `n`, or shorter by more than one.
abbrev pub Even : ℕ → List (ℕ × ℕ) → Type 0
Even n [] = Unit
Even n (r ∷ ranges) = (r.0 + n ≤ r.1) × (r.1 ≤ r.0 + (n + 1)) × Even n ranges

-- The chunks end at `nonce_end` by themselves.
chunk_ranges-Tile :
    (left i cursor chunk remainder nonce_end : ℕ)
    → nonce_end < 2 ^ 32
    → remainder ≤ i + left
    → cursor + (left * chunk + (remainder - i)) ≡ nonce_end
    → Tile cursor nonce_end (chunk_ranges left i cursor chunk remainder nonce_end)
      × Even chunk (chunk_ranges left i cursor chunk remainder nonce_end)
unfolding chunk_ranges
chunk_ranges-Tile zero i cursor chunk remainder nonce_end fits enough sum = (omega arith, tt)
chunk_ranges-Tile (suc left) i cursor chunk remainder nonce_end fits enough sum =
    let extra : ℕ = if ltb i remainder then 1 else 0 in
    let step : remainder - i ≡ extra + (remainder - (i + 1)) = ground arith in
    let small : extra ≤ 1 = ground arith in
    let mult : suc left * chunk ≡ chunk + left * chunk = grind arith in
    let end : min (cursor + (chunk + extra)) nonce_end ≡ cursor + (chunk + extra) =
      omega (arith, step, mult) in
    let (tiles, even) =
      chunk_ranges-Tile left (i + 1) (min (cursor + (chunk + extra)) nonce_end) chunk remainder
        nonce_end fits (omega arith) (omega (arith, step, mult, end)) in
    let start_fits : u32 cursor ≡ cursor = omega arith in
    let end_fits : u32 (min (cursor + (chunk + extra)) nonce_end)
        ≡ min (cursor + (chunk + extra)) nonce_end =
      omega arith in
    (
      (
        start_fits,
        omega (arith, end, end_fits),
        subst
            (λ e. Tile e nonce_end (
              chunk_ranges left (i + 1) (min (cursor + (chunk + extra)) nonce_end) chunk remainder
                nonce_end))
            (sym end_fits) tiles,
      ),
      (
        omega (arith, start_fits, end, end_fits),
        omega (arith, start_fits, end, end_fits, small),
        even,
      ),
    )

-- Where the ranges end at `b` already, landing the last one there changes nothing.
land_last-Tile : (ranges : List (ℕ × ℕ)) (a b : ℕ) → Tile a b ranges → land_last b ranges ≡ ranges
unfolding land_last
land_last-Tile [] a b t = refl
land_last-Tile ((x, y) ∷ []) a b t = ap (λ (e : ℕ). (x, e) ∷ []) (sym t.2)
land_last-Tile ((x, y) ∷ r ∷ ranges) a b t = ap (◌∷◌ (x, y)) (land_last-Tile (r ∷ ranges) y b t.2)

cpu_total_le : (share : Share) (total : ℕ) → 0 < total → cpu_total share total ≤ total
unfolding cpu_total
cpu_total_le share total h = ground arith

-- The chunks of `cpu` nonces that end at `nonce_end`, for at least one thread.
active_tiles :
    (nonce_start nonce_end cpu threads : ℕ)
    → nonce_start < nonce_end
    → nonce_end < 2 ^ 32
    → cpu ≤ nonce_end - nonce_start
    → 0 < threads
    → let gpu_end = u32 (min (nonce_start + (nonce_end - nonce_start - cpu)) nonce_end) in
      let ranges =
        land_last nonce_end
          (chunk_ranges threads 0 gpu_end (cpu / threads) (cpu % threads) nonce_end) in
      Tile nonce_start nonce_end ((nonce_start, gpu_end) ∷ ranges) × Even (cpu / threads) ranges
active_tiles nonce_start nonce_end cpu threads some_nonces fits within some_threads =
    let gpu_end = u32 (min (nonce_start + (nonce_end - nonce_start - cpu)) nonce_end) in
    let at : gpu_end ≡ nonce_end - cpu = omega arith in
    let whole : threads * (cpu / threads) + cpu % threads ≡ cpu =
      grind (arith, div-add-mod' cpu threads) in
    let few : cpu % threads < threads = mod-lt cpu some_threads in
    let (tiles, even) =
      chunk_ranges-Tile threads 0 gpu_end (cpu / threads) (cpu % threads) nonce_end fits
        (omega (arith, few)) (omega (arith, at, whole)) in
    let landed =
      land_last-Tile (chunk_ranges threads 0 gpu_end (cpu / threads) (cpu % threads) nonce_end)
        gpu_end nonce_end tiles in
    (
      (refl, omega (arith, at), subst (Tile gpu_end nonce_end) (sym landed) tiles),
      subst (Even (cpu / threads)) (sym landed) even,
    )

-- For a nonce range that is not empty and ends below 2 ^ 32, the GPU's range and then the CPU
-- threads' follow one another from the first nonce to the last, without a gap or an overlap, and
-- the threads' lengths are one number or that and one.
pub partition_nonce_range-Tile :
    (nonce_start nonce_end : ℕ) (share : Share) (cpu_threads : ℕ)
    → nonce_start < nonce_end
    → nonce_end < 2 ^ 32
    → let split = partition_nonce_range nonce_start nonce_end share cpu_threads in
      Tile nonce_start nonce_end (split.0 ∷ split.1)
      × Even (cpu_total share (nonce_end - nonce_start) / cpu_threads) split.1
unfolding partition_nonce_range
partition_nonce_range-Tile nonce_start nonce_end share cpu_threads some_nonces fits =
    let nonempty : leb nonce_end nonce_start ≡ false = ground arith in
    elim (Bool-cases (ltb 0 cpu_threads && share.above_zero)) [
      | inr off ↦ rw (nonempty, off) ((refl, omega arith, refl), tt)
      | inl on ↦
          rw (nonempty, on)
            (active_tiles nonce_start nonce_end (cpu_total share (nonce_end - nonce_start))
              cpu_threads some_nonces fits
              (cpu_total_le share (nonce_end - nonce_start) (omega arith)) (ground arith))
    ]
