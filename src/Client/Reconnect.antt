-- ===== src/Client/Reconnect.antt =====
-- src/stratum/client.rs: the turns of the reconnect loop.
use csd_mining_pool_public.Prelude.{
  ◌*◌, ◌≤◌, ◌≡◌, ◌≢◌, refl, sym, ap, subst, ◌∙◌, inl, inr, Bool, true, false, not, ◌&&◌, ◌||◌,
  Option, none, some, List, [], ◌∷◌, get_elem?_total, min, arith, Bool-cases, Option-cases,
}
use csd_mining_pool_public.Endpoint.{EndpointList, current, advance, maybe_failback}
use csd_mining_pool_public.Endpoint.Rotation.{IsValid, advance-IsValid, maybe_failback-IsValid}
use csd_mining_pool_public.Client.{Codec}
use csd_mining_pool_public.Client.Reader.{
  backoff_min, backoff_max, failback_ms, Handshake, Attempt, ReaderState, install, or_empty,
  Reconnected, connected, shut_down, still_trying, reconnect,
}

abbrev pub state_of : Reconnected → ReaderState
state_of (connected r) = r
state_of (shut_down r) = r
state_of (still_trying r) = r

abbrev pub is_connected : Reconnected → Bool
is_connected (connected r) = true
is_connected _ = false

-- No turn is asked to shut down.
abbrev pub undisturbed : List Attempt → Bool
undisturbed [] = true
undisturbed (a ∷ attempts) = not (a.shutdown_before || a.shutdown_after) && undisturbed attempts

-- Some turn's handshake succeeds.
abbrev pub some_success : List Attempt → Bool
some_success [] = false
some_success (a ∷ attempts) = elim a.handshake [ none ↦ some_success attempts | some hs ↦ true ]

-- The endpoint that a turn dials, and the reader's state after a handshake with it that failed.
abbrev dialled : Attempt → ReaderState → EndpointList
dialled a r = (maybe_failback r.endpoints a.failback_now_ms failback_ms).0

abbrev retried : Attempt → ReaderState → ReaderState
retried a r = record {
  endpoints = advance (dialled a r);
  backoff = min (r.backoff * 2) backoff_max;
  shared = r.shared;
}

abbrev done : Codec → Attempt → Handshake → ReaderState → ReaderState
done codec a hs r = record {
  endpoints = dialled a r;
  backoff = backoff_min;
  shared = install codec (or_empty (current (dialled a r))) hs a.done_now_ms r.shared;
}

-- One turn of the loop, by what happens in it.
data Turn (codec : Codec) (a : Attempt) (attempts : List Attempt) (r : ReaderState) : Type 0 where
  stopped :
      (a.shutdown_before || a.shutdown_after) ≡ true
      → reconnect codec (a ∷ attempts) r ≡ shut_down r
      → Turn codec a attempts r
  succeeded :
      (hs : Handshake)
      → a.handshake ≡ some hs
      → reconnect codec (a ∷ attempts) r ≡ connected (done codec a hs r)
      → Turn codec a attempts r
  failed :
      a.handshake ≡ none
      → reconnect codec (a ∷ attempts) r ≡ reconnect codec attempts (retried a r)
      → Turn codec a attempts r

Turn-cases :
    (codec : Codec) (a : Attempt) (attempts : List Attempt) (r : ReaderState)
    → Turn codec a attempts r
unfolding reconnect
Turn-cases codec a attempts r = elim (Bool-cases (a.shutdown_before || a.shutdown_after)) [
  | inl stop ↦ stopped stop (rw stop refl)
  | inr go ↦ elim (Option-cases a.handshake) [
    | inl none_back ↦ failed none_back (simp (go, none_back))
    | inr (hs, back) ↦ succeeded hs back (simp (go, back))
  ]
]

-- The sleep is between its bounds, and the selected endpoint is one of the list.
abbrev pub InRange : ReaderState → Type 0
InRange r = (backoff_min ≤ r.backoff) × (r.backoff ≤ backoff_max) × IsValid r.endpoints

dialled-IsValid : (a : Attempt) (r : ReaderState) → IsValid r.endpoints → IsValid (dialled a r)
dialled-IsValid a r = maybe_failback-IsValid r.endpoints a.failback_now_ms failback_ms

retried-InRange : (a : Attempt) (r : ReaderState) → InRange r → InRange (retried a r)
retried-InRange a r (low, high, valid) =
    (omega arith, omega arith, advance-IsValid (dialled a r) (dialled-IsValid a r valid))

-- Whatever the handshakes do, the reconnect loop keeps the backoff between one second and thirty
-- and the selected endpoint inside the list.
pub reconnect-InRange :
    (attempts : List Attempt) (codec : Codec) (r : ReaderState)
    → InRange r
    → InRange (state_of (reconnect codec attempts r))
unfolding reconnect
reconnect-InRange [] codec r h = h
reconnect-InRange (a ∷ attempts) codec r h = elim (Turn-cases codec a attempts r) [
  | stopped stop e ↦ subst (λ t. InRange (state_of t)) (sym e) h
  | succeeded hs back e ↦
      subst (λ t. InRange (state_of t)) (sym e) (omega arith, omega arith, dialled-IsValid a r h.2)
  | failed back e ↦
      subst (λ t. InRange (state_of t)) (sym e)
        (reconnect-InRange attempts codec (retried a r) (retried-InRange a r h))
]

-- A session over a fresh connection: the backoff is reset, nothing is un-acked, and the endpoint
-- that the heartbeat reports is the selected one.
pub record Online (t : Reconnected) : Type 0 where
  pub is_online : is_connected t ≡ true
  pub backoff_reset : (state_of t).backoff ≡ backoff_min
  pub nothing_unacked : (state_of t).shared.stats.consecutive_unacked ≡ 0
  pub reports_selected : current (state_of t).endpoints ≡ some (state_of t).shared.current_endpoint

selected : (e : EndpointList) → IsValid e → current e ≡ some (or_empty (current e))
unfolding current or_empty
selected e valid =
    let (ep, at) = get_elem?_total e.all e.current valid in
    at ∙ ap (λ o. some (or_empty o)) (sym at)

done-Online :
    (codec : Codec) (a : Attempt) (hs : Handshake) (r : ReaderState)
    → IsValid r.endpoints
    → Online (connected (done codec a hs r))
unfolding install
done-Online codec a hs r valid = record {
  is_online = refl;
  backoff_reset = refl;
  nothing_unacked = refl;
  reports_selected = selected (dialled a r) (dialled-IsValid a r valid);
}

not_disturbed : (b c : Bool) → b ≡ true → (not b && c) ≢ true
not_disturbed true c e h = absurd cc
not_disturbed false c e h = absurd cc

and_right : (b c : Bool) → (b && c) ≡ true → c ≡ true
and_right b c h = ground arith

-- From a valid endpoint list, a reconnect loop that is not asked to shut down and gets one
-- successful handshake comes back online: connected, backoff reset, nothing un-acked, and
-- reporting the selected endpoint.
pub reconnect-Online :
    (attempts : List Attempt) (codec : Codec) (r : ReaderState)
    → IsValid r.endpoints
    → undisturbed attempts ≡ true
    → some_success attempts ≡ true
    → Online (reconnect codec attempts r)
reconnect-Online [] codec r valid calm hope = absurd cc
reconnect-Online (a ∷ attempts) codec r valid calm hope = elim (Turn-cases codec a attempts r) [
  | stopped stop e ↦
      absurd
        (not_disturbed (a.shutdown_before || a.shutdown_after) (undisturbed attempts) stop calm)
  | succeeded hs back e ↦ subst Online (sym e) (done-Online codec a hs r valid)
  | failed back e ↦ subst Online (sym e) (
      reconnect-Online attempts codec (retried a r)
        (advance-IsValid (dialled a r) (dialled-IsValid a r valid))
        (and_right (not (a.shutdown_before || a.shutdown_after)) (undisturbed attempts) calm)
        (later a.handshake attempts back hope))
]
  where
    later :
        (o : Option Handshake) (rest : List Attempt)
        → o ≡ none
        → (elim o [ none ↦ some_success rest | some hs ↦ true ]) ≡ true
        → some_success rest ≡ true
    later none rest back hope = hope
    later (some hs) rest back hope = absurd cc
