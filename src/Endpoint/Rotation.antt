-- ===== src/Endpoint/Rotation.antt =====
-- src/endpoint.rs: the rotation of the list.
use native.Mathlib.Nat.{mod-eq_of_lt, mod-add-mod}
use csd_mining_pool_public.Prelude.{ℕ, zero, suc, ◌+◌, ◌%◌, ◌<◌, ◌≡◌, refl, ap, ◌∙◌, length, arith}
use csd_mining_pool_public.Endpoint.{EndpointList, advance, maybe_failback}

-- What `new` and every operation keep: the selection indexes the list.
abbrev pub IsValid : EndpointList → Type 0
IsValid e = e.current < length e.all

pub all-advance : (e : EndpointList) → (advance e).all ≡ e.all
unfolding advance
all-advance e = ground arith

pub advance-IsValid : (e : EndpointList) → IsValid e → IsValid (advance e)
unfolding advance
advance-IsValid e v = ground arith

pub maybe_failback-IsValid :
    (e : EndpointList) (now interval : ℕ) → IsValid e → IsValid (maybe_failback e now interval).0
unfolding maybe_failback
maybe_failback-IsValid e now interval v = ground arith

-- `advance` repeated.
abbrev pub advances : ℕ → EndpointList → EndpointList
advances zero e = e
advances (suc k) e = advance (advances k e)

one_more : (c k : ℕ) → c + k + 1 ≡ c + suc k
one_more c k = omega arith

advances-all : (k : ℕ) (e : EndpointList) → (advances k e).all ≡ e.all
advances-all zero e = refl
advances-all (suc k) e = all-advance (advances k e) ∙ advances-all k e

advance-current :
    (e : EndpointList) → IsValid e → (advance e).current ≡ (e.current + 1) % length e.all
unfolding advance
advance-current e v = ground arith

advances-IsValid : (k : ℕ) (e : EndpointList) → IsValid e → IsValid (advances k e)
advances-IsValid zero e v = v
advances-IsValid (suc k) e v = advance-IsValid (advances k e) (advances-IsValid k e v)

-- In a valid endpoint list, k rotations move the selection on by k places, wrapping at the end,
-- and keep the list.
pub current-advances :
    (k : ℕ) (e : EndpointList)
    → IsValid e
    → ((advances k e).current ≡ (e.current + k) % length e.all) × ((advances k e).all ≡ e.all)
current-advances zero e v = (grind (arith, mod-eq_of_lt), refl)
current-advances (suc k) e v =
    let (at, same) = current-advances k e v in
    let valid : IsValid (advances k e) = advances-IsValid k e v in
    let step = advance-current (advances k e) valid in
    (
      omega (
        arith,
        step,
        ap (λ (n : ℕ). ((advances k e).current + 1) % n) (ap length same),
        ap (λ (c : ℕ). (c + 1) % length e.all) at,
        mod-add-mod (e.current + k) (length e.all) 1,
        ap (λ (c : ℕ). c % length e.all) (one_more e.current k),
      ),
      advances-all (suc k) e,
    )
