-- ===== src/Endpoint/Failback.antt =====
-- src/endpoint.rs: the failback checks.
use native.Mathlib.Nat.{mod-eq_of_lt}
use csd_mining_pool_public.Prelude.{
  if◌then◌else◌, ◌%◌, ap, ◌∙◌, inl, inr, Bool-cases, ltb, ltb→le, ℕ, ◌+◌, ◌-◌, ◌≤◌, ◌<◌, ◌≡◌, refl,
  ◌≢◌, ◌↔◌, true, List, [], ◌∷◌, All, arith, length,
}
use csd_mining_pool_public.Endpoint.{EndpointList, advance, maybe_failback}

-- A failback check answers true exactly on a backup whose failback clock runs and is an interval
-- old; it then selects the primary, and else keeps the selection.
pub maybe_failback_iff :
    (e : EndpointList) (now interval : ℕ)
    → (((maybe_failback e now interval).1 ≡ true)
        ↔ ((e.current ≢ 0) × (e.last_failback_ms ≢ 0) × (interval ≤ now - e.last_failback_ms)))
      × ((maybe_failback e now interval).0.current
          ≡ (if (maybe_failback e now interval).1 then 0 else e.current))
unfolding maybe_failback
maybe_failback_iff e now interval = (ground arith, ground arith)

-- A failback check at each of the given times.
abbrev pub checks : EndpointList → ℕ → List ℕ → EndpointList
checks e interval [] = e
checks e interval (now ∷ times) = checks (maybe_failback e now interval).0 interval times

maybe_failback_early :
    (e : EndpointList) (now interval : ℕ)
    → e.current ≢ 0
    → e.last_failback_ms ≢ 0
    → now - e.last_failback_ms < interval
    → (maybe_failback e now interval).0 ≡ e
unfolding maybe_failback
maybe_failback_early e now interval b c h = ground arith

checks_hold :
    (interval : ℕ) (times : List ℕ) (e : EndpointList)
    → e.current ≢ 0
    → e.last_failback_ms ≢ 0
    → All (λ now. now - e.last_failback_ms < interval) times
    → checks e interval times ≡ e
checks_hold interval [] e b c h = refl
checks_hold interval (now ∷ times) e b c h =
    rw (maybe_failback_early e now interval b c h.0) (checks_hold interval times e b c h.1)

-- On a backup whose failback clock has not run, the first check starts the clock, and the backup
-- is kept by every check less than an interval after it.
pub backup_held :
    (e : EndpointList) (now interval : ℕ) (times : List ℕ)
    → e.current ≢ 0
    → e.last_failback_ms ≡ 0
    → now ≢ 0
    → All (λ t. t - now < interval) times
    → checks e interval (now ∷ times) ≡ record e { last_failback_ms = now }
unfolding maybe_failback
backup_held e now interval times b c n h =
    let start : (maybe_failback e now interval).0 ≡ record e { last_failback_ms = now } =
      ground arith in
    rw start (checks_hold interval times (record e { last_failback_ms = now }) b n h)

-- The converse of what `advance` is for: where the primary's clock already runs, and is at least
-- `interval` old when a failover leaves the primary, the check that follows goes straight back.
pub failover_undone :
    (e : EndpointList) (now interval : ℕ)
    → 1 < length e.all
    → e.current ≡ 0
    → e.last_failback_ms ≢ 0
    → interval ≤ now - e.last_failback_ms
    → ((advance e).current ≡ 1)
      × ((maybe_failback (advance e) now interval).0.current ≡ 0)
      × ((maybe_failback (advance e) now interval).1 ≡ true)
unfolding advance maybe_failback
failover_undone e now interval two at_primary runs old =
    let next : (e.current + 1) % length e.all ≡ 1 =
      ap (λ (c : ℕ). (c + 1) % length e.all) at_primary ∙ mod-eq_of_lt two in
    elim (Bool-cases (ltb 1 (length e.all))) [
      | inl t ↦ ground arith
      | inr f ↦ absurd (omega (arith, ltb→le 1 (length e.all) f))
    ]
