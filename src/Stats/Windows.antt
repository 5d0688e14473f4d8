-- ===== src/Stats/Windows.antt =====
-- src/stats.rs: the pruned samples against all the samples.
use csd_mining_pool_public.Prelude.{
  ℕ, ◌-◌, ◌*◌, ◌≤◌, ◌≡◌, refl, sym, ap, ◌∙◌, inl, inr, true, false, List, [], ◌∷◌, ◌++◌, arith, leb,
  if◌then◌else◌, Bool-cases, append_assoc, append-nil, All, ◌==◌,
}
use csd_mining_pool_public.Prelude.Float.{F64, of_nat}
use csd_mining_pool_public.Stats.{
  RateSample, window_15m_ms, retain, record_sample, total, window_avg, windows,
}

-- The specification: windows over everything that was ever recorded.
abbrev pub record_all : List RateSample → List RateSample → List RateSample
record_all [] kept = kept
record_all ((now_ms, ghs) ∷ later) kept = record_all later (record_sample ghs now_ms kept)

module _ (cutoff t : ℕ) (g : F64) (samples : List RateSample) where
  kept_sample :
      leb cutoff t ≡ true → retain cutoff ((t, g) ∷ samples) ≡ (t, g) ∷ retain cutoff samples
  unfolding retain
  kept_sample h = rw h refl

  old_sample : leb cutoff t ≡ false → retain cutoff ((t, g) ∷ samples) ≡ retain cutoff samples
  unfolding retain
  old_sample h = rw h refl

retain_twice :
    (low high : ℕ) (samples : List RateSample)
    → low ≤ high
    → retain high (retain low samples) ≡ retain high samples
retain_twice low high [] h = unfold retain in refl
retain_twice low high ((t, g) ∷ samples) h = elim (Bool-cases (leb low t)) [
  | inl keep ↦ elim (Bool-cases (leb high t)) [
    | inl new ↦
        ap (retain high) (kept_sample low t g samples keep)
        ∙ kept_sample high t g (retain low samples) new
        ∙ ap (◌∷◌ (t, g)) (retain_twice low high samples h)
        ∙ sym (kept_sample high t g samples new)
    | inr old ↦
        ap (retain high) (kept_sample low t g samples keep)
        ∙ old_sample high t g (retain low samples) old
        ∙ retain_twice low high samples h
        ∙ sym (old_sample high t g samples old)
  ]
  | inr gone ↦
      let old : leb high t ≡ false = ground arith in
      ap (retain high) (old_sample low t g samples gone)
      ∙ retain_twice low high samples h
      ∙ sym (old_sample high t g samples old)
]

retain-append :
    (cutoff : ℕ) (xs ys : List RateSample)
    → retain cutoff (xs ++ ys) ≡ retain cutoff xs ++ retain cutoff ys
retain-append cutoff [] ys = unfold retain in refl
retain-append cutoff ((t, g) ∷ xs) ys = elim (Bool-cases (leb cutoff t)) [
  | inl keep ↦
      kept_sample cutoff t g (xs ++ ys) keep
      ∙ ap (◌∷◌ (t, g)) (retain-append cutoff xs ys)
      ∙ ap (λ l. l ++ retain cutoff ys) (sym (kept_sample cutoff t g xs keep))
  | inr gone ↦
      old_sample cutoff t g (xs ++ ys) gone
      ∙ retain-append cutoff xs ys
      ∙ ap (λ l. l ++ retain cutoff ys) (sym (old_sample cutoff t g xs gone))
]

-- No record is later than `now_ms`.
abbrev pub UpTo : ℕ → List RateSample → Type 0
UpTo now_ms = All (λ e. e.0 ≤ now_ms)

-- The samples of the last `span_ms` survive the pruning of every record.
retain-record_all :
    (now_ms span_ms : ℕ) (later kept all : List RateSample)
    → UpTo now_ms later
    → span_ms ≤ window_15m_ms
    → retain (now_ms - span_ms) kept ≡ retain (now_ms - span_ms) all
    → retain (now_ms - span_ms) (record_all later kept) ≡ retain (now_ms - span_ms) (all ++ later)
retain-record_all now_ms span_ms [] kept all u le h =
    h ∙ ap (retain (now_ms - span_ms)) (sym (append-nil all))
retain-record_all now_ms span_ms ((t, g) ∷ later) kept all u le h =
    let cutoff = now_ms - span_ms in
    let one : List RateSample = (t, g) ∷ [] in
    let pruned : retain cutoff (record_sample g t kept) ≡ retain cutoff (kept ++ one) =
      unfold record_sample in
      retain_twice (t - window_15m_ms) cutoff (kept ++ one) (omega (arith, u.0)) in
    retain-record_all now_ms span_ms later (record_sample g t kept) (all ++ one) u.1 le (
      pruned
      ∙ retain-append cutoff kept one
      ∙ ap (λ l. l ++ retain cutoff one) h
      ∙ sym (retain-append cutoff all one))
    ∙ ap (retain cutoff) (append_assoc all one later)

window_of :
    (add : F64 → F64 → F64) (div : F64 → ℕ → F64) (xs ys : List RateSample) (now_ms span_ms : ℕ)
    → retain (now_ms - span_ms) xs ≡ retain (now_ms - span_ms) ys
    → window_avg add div xs now_ms span_ms ≡ window_avg add div ys now_ms span_ms
unfolding window_avg
window_of add div xs ys now_ms span_ms h =
    ap (λ l. let (sum, n) = total add l (of_nat 0) 0 in if n == 0 then of_nat 0 else div sum n) h

-- The three windows of the pruned samples are those of all the samples that were ever recorded, at
-- any time that is not before a record.
pub windows-record_all :
    (add : F64 → F64 → F64) (div : F64 → ℕ → F64) (samples : List RateSample) (now_ms : ℕ)
    → UpTo now_ms samples
    → windows add div (record_all samples []) now_ms ≡ windows add div samples now_ms
unfolding windows
windows-record_all add div samples now_ms u =
    let same = λ (span_ms : ℕ) (le : span_ms ≤ window_15m_ms).
      window_of add div (record_all samples []) samples now_ms span_ms
        (retain-record_all now_ms span_ms samples [] [] u le refl) in
    λ i. (
      same (10 * 1000) (omega arith) i,
      same (60 * 1000) (omega arith) i,
      same window_15m_ms (omega arith) i,
    )
