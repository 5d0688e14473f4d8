-- ===== src/Client/Acks.antt =====
-- src/stratum/client.rs: the counters of a session under acks and submits.
use csd_mining_pool_public.Prelude.{
  ℕ, suc, ◌+◌, ◌^◌, ◌-◌, ◌<◌, ◌≡◌, refl, Bool, true, false, Option, none, some, List, [], ◌∷◌, Text,
  arith, u64, if◌then◌else◌,
}
use csd_mining_pool_public.Client.{
  Codec, Ack, accepted, rejected, stale, SessionStats, classify_ack, count_ack, record_if,
  record_ack,
}
use csd_mining_pool_public.Client.Reader.{count_submit}

-- All replies of the pool to submits.
abbrev pub acks : SessionStats → ℕ
acks s = s.accepted + (s.rejected + s.stale)

record_if-counted :
    (o : Option Ack) (now_ms : ℕ) (s : SessionStats)
    → s.accepted < 2 ^ 64 - 1
    → s.rejected < 2 ^ 64 - 1
    → s.stale < 2 ^ 64 - 1
    → (record_if o now_ms s).1 ≡ true
    → (acks (record_if o now_ms s).0 ≡ suc (acks s))
      × ((record_if o now_ms s).0.consecutive_unacked ≡ 0)
      × ((record_if o now_ms s).0.submitted ≡ s.submitted)
unfolding record_if count_ack
record_if-counted none now_ms s a r t h = absurd cc
record_if-counted (some accepted) now_ms s a r t h = (omega arith, refl, refl)
record_if-counted (some (rejected reason)) now_ms s a r t h = (omega arith, refl, refl)
record_if-counted (some stale) now_ms s a r t h = (omega arith, refl, refl)

-- A line that is an ack raises the sum of the accepted, rejected and stale counters by one, below
-- their overflow, ends the un-acked streak, and leaves the submit counter.
pub record_ack_counted :
    (codec : Codec) (line : Text) (now_ms : ℕ) (s : SessionStats)
    → s.accepted < 2 ^ 64 - 1
    → s.rejected < 2 ^ 64 - 1
    → s.stale < 2 ^ 64 - 1
    → (record_ack codec line now_ms s).1 ≡ true
    → (acks (record_ack codec line now_ms s).0 ≡ suc (acks s))
      × ((record_ack codec line now_ms s).0.consecutive_unacked ≡ 0)
      × ((record_ack codec line now_ms s).0.submitted ≡ s.submitted)
unfolding record_ack
record_ack_counted codec line now_ms s = record_if-counted (classify_ack codec line) now_ms s

-- What happens to a session's counters, newest first.
pub data Event : Type 0 where
  submitted : Event
  received : Text → ℕ → Event

module _ (codec : Codec) (start : SessionStats) where
  abbrev pub stats_after : List Event → SessionStats
  stats_after [] = start
  stats_after (submitted ∷ earlier) = count_submit (stats_after earlier)
  stats_after (received line now_ms ∷ earlier) =
      (record_ack codec line now_ms (stats_after earlier)).0

  abbrev pub is_ack : Text → Bool
  is_ack line = elim (classify_ack codec line) [ none ↦ false | some a ↦ true ]

  -- The submits since the last ack.
  abbrev pub pending : List Event → ℕ
  pending [] = start.consecutive_unacked
  pending (submitted ∷ earlier) = suc (pending earlier)
  pending (received line now_ms ∷ earlier) = if is_ack line then 0 else pending earlier

  record_if-pending :
      (o : Option Ack) (now_ms n : ℕ) (s : SessionStats)
      → s.consecutive_unacked ≡ u64 n
      → (record_if o now_ms s).0.consecutive_unacked
        ≡ u64 (if elim o [ none ↦ false | some a ↦ true ] then 0 else n)
  unfolding record_if count_ack
  record_if-pending none now_ms n s h = h
  record_if-pending (some accepted) now_ms n s h = refl
  record_if-pending (some (rejected reason)) now_ms n s h = refl
  record_if-pending (some stale) now_ms n s h = refl

  -- Over any sequence of submits and received lines, the un-acked streak is the number of submits
  -- since the last ack, modulo 2 ^ 64.
  pub stats_after-pending :
      (events : List Event)
      → start.consecutive_unacked < 2 ^ 64
      → (stats_after events).consecutive_unacked ≡ u64 (pending events)
  unfolding count_submit record_ack
  stats_after-pending [] h = omega arith
  stats_after-pending (submitted ∷ earlier) h = omega (arith, stats_after-pending earlier h)
  stats_after-pending (received line now_ms ∷ earlier) h =
      record_if-pending (classify_ack codec line) now_ms (pending earlier) (stats_after earlier)
        (stats_after-pending earlier h)
