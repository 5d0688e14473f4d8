-- ===== src/Client/Handshake/Pushes.antt =====
-- src/stratum/client.rs: what a successful handshake has read, and what it does with the pushes.
use csd_mining_pool_public.Prelude.{
  ◌≡◌, refl, sym, ap, ◌∙◌, ◌⊎◌, inl, inr, Bool, true, false, Option, none, some, List, [], ◌∷◌,
  ◌++◌, append_assoc, append-nil, Text, Option-cases, subst,
}
use csd_mining_pool_public.Prelude.Ascii.{trim}
use csd_mining_pool_public.Prelude.Results.{ok, Result-cases}
use csd_mining_pool_public.Protocol.{Response, SubscribeResult}
use csd_mining_pool_public.Client.Reader.{Handshake}
use csd_mining_pool_public.Client.Handshake.{
  LineRead, line, closed, failed, Reply, skipped, push, subscribed, authorized, refused, reply_of,
  Replies, no_replies, conclude, take_reply, both, on_read, handshake_loop,
}

module _ (parse : Text → Option Response) where
  -- The lines that are neither empty nor one of the two replies, without their white space.
  abbrev push_of : Reply → Text → List Text → List Text
  push_of push t later = t ∷ later
  push_of _ t later = later

  abbrev pub pushes : List LineRead → List Text
  pushes [] = []
  pushes (line t ∷ reads) = push_of (reply_of parse (trim t)) (trim t) (pushes reads)
  pushes (r ∷ reads) = pushes reads

  -- The last subscribe result and the last authorize result that were read.
  abbrev subscribe_in : Reply → Option SubscribeResult → Option SubscribeResult
  subscribe_in (subscribed s) before = some s
  subscribe_in _ before = before

  abbrev pub last_subscribe : List LineRead → Option SubscribeResult → Option SubscribeResult
  last_subscribe [] before = before
  last_subscribe (line t ∷ reads) before =
      last_subscribe reads (subscribe_in (reply_of parse (trim t)) before)
  last_subscribe (r ∷ reads) before = last_subscribe reads before

  abbrev authorize_in : Reply → Option Bool → Option Bool
  authorize_in (authorized b) before = some b
  authorize_in _ before = before

  abbrev pub last_authorize : List LineRead → Option Bool → Option Bool
  last_authorize [] before = before
  last_authorize (line t ∷ reads) before =
      last_authorize reads (authorize_in (reply_of parse (trim t)) before)
  last_authorize (r ∷ reads) before = last_authorize reads before

  -- What the loop has read when it succeeds.
  pub record Completed (reads : List LineRead) (r : Replies) (hs : Handshake) : Type 0 where
    pub consumed : List LineRead
    pub rest : List LineRead
    pub read_all : reads ≡ consumed ++ rest
    pub kept : hs.early_pushes ≡ r.early_pushes ++ pushes consumed
    pub subscribe_last : last_subscribe consumed r.subscribe ≡ some hs.subscribe
    pub authorize_last : last_authorize consumed r.authorized_as ≡ some true

  both-some :
      (o : Option SubscribeResult) (a : Option Bool) (s : SubscribeResult) (b : Bool)
      → both o a ≡ some (s, b)
      → (o ≡ some s) × (a ≡ some b)
  unfolding both
  both-some none a s b h = absurd cc
  both-some (some t) none s b h = absurd cc
  both-some (some t) (some c) s b h = (cc, cc)

  conclude_ok :
      (s : SubscribeResult) (b : Bool) (ps : List Text) (hs : Handshake)
      → conclude s b ps ≡ ok hs
      → (b ≡ true) × (hs.subscribe ≡ s) × (hs.early_pushes ≡ ps)
  unfolding conclude
  conclude_ok s true ps hs h =
      let e : record { subscribe = s; early_pushes = ps } ≡ hs = cc h in
      (
        refl,
        sym (ap (λ (k : Handshake). k.subscribe) e),
        sym (ap (λ (k : Handshake). k.early_pushes) e),
      )
  conclude_ok s false ps hs h = absurd cc

  -- What a reply that is gone on from leaves.
  take_reply_ok :
      (rep : Reply) (t : Text) (r next : Replies)
      → take_reply rep t r ≡ ok next
      → (next.early_pushes ≡ r.early_pushes ++ push_of rep t [])
        × (next.subscribe ≡ subscribe_in rep r.subscribe)
        × (next.authorized_as ≡ authorize_in rep r.authorized_as)
  unfolding take_reply
  take_reply_ok skipped t r next h =
      let e : r ≡ next = cc h in
      subst
        (λ (n : Replies).
          (n.early_pushes ≡ r.early_pushes ++ [])
          × (n.subscribe ≡ r.subscribe)
          × (n.authorized_as ≡ r.authorized_as))
        e (sym (append-nil r.early_pushes), refl, refl)
  take_reply_ok push t r next h =
      let e : record r { early_pushes = r.early_pushes ++ (t ∷ []) } ≡ next = cc h in
      subst
        (λ (n : Replies).
          (n.early_pushes ≡ r.early_pushes ++ (t ∷ []))
          × (n.subscribe ≡ r.subscribe)
          × (n.authorized_as ≡ r.authorized_as))
        e (refl, refl, refl)
  take_reply_ok (subscribed s) t r next h =
      let e : record r { subscribe = some s } ≡ next = cc h in
      subst
        (λ (n : Replies).
          (n.early_pushes ≡ r.early_pushes ++ [])
          × (n.subscribe ≡ some s)
          × (n.authorized_as ≡ r.authorized_as))
        e (sym (append-nil r.early_pushes), refl, refl)
  take_reply_ok (authorized b) t r next h =
      let e : record r { authorized_as = some b } ≡ next = cc h in
      subst
        (λ (n : Replies).
          (n.early_pushes ≡ r.early_pushes ++ [])
          × (n.subscribe ≡ r.subscribe)
          × (n.authorized_as ≡ some b))
        e (sym (append-nil r.early_pushes), refl, refl)
  take_reply_ok (refused e) t r next h = absurd cc

  push_of-append :
      (rep : Reply) (t : Text) (later : List Text) → push_of rep t [] ++ later ≡ push_of rep t later
  push_of-append skipped t later = refl
  push_of-append push t later = refl
  push_of-append (subscribed s) t later = refl
  push_of-append (authorized b) t later = refl
  push_of-append (refused e) t later = refl

  -- The loop stops before any read.
  stop_Completed :
      (reads : List LineRead) (r : Replies) (hs : Handshake) (s : SubscribeResult) (b : Bool)
      → both r.subscribe r.authorized_as ≡ some (s, b)
      → conclude s b r.early_pushes ≡ ok hs
      → Completed reads r hs
  stop_Completed reads r hs s b there h =
      let (sub, auth) = both-some r.subscribe r.authorized_as s b there in
      let (is_true, is_s, is_ps) = conclude_ok s b r.early_pushes hs h in
      record {
        consumed = [];
        rest = reads;
        read_all = refl;
        kept = is_ps ∙ sym (append-nil r.early_pushes);
        subscribe_last = sub ∙ ap some (sym is_s);
        authorize_last = auth ∙ ap some is_true;
      }

  step_Completed :
      (t : Text) (reads : List LineRead) (r next : Replies) (hs : Handshake)
      → take_reply (reply_of parse (trim t)) (trim t) r ≡ ok next
      → Completed reads next hs
      → Completed (line t ∷ reads) r hs
  step_Completed t reads r next hs h c =
      let rep = reply_of parse (trim t) in
      let (early, sub, auth) = take_reply_ok rep (trim t) r next h in
      record {
        consumed = line t ∷ c.consumed;
        rest = c.rest;
        read_all = ap (◌∷◌ (line t)) c.read_all;
        kept =
            c.kept
            ∙ ap (λ ps. ps ++ pushes c.consumed) early
            ∙ append_assoc r.early_pushes (push_of rep (trim t) []) (pushes c.consumed)
            ∙ ap (λ ps. r.early_pushes ++ ps) (push_of-append rep (trim t) (pushes c.consumed));
        subscribe_last = ap (last_subscribe c.consumed) (sym sub) ∙ c.subscribe_last;
        authorize_last = ap (last_authorize c.consumed) (sym auth) ∙ c.authorize_last;
      }

  loop-Completed :
      (reads : List LineRead) (r : Replies) (hs : Handshake)
      → handshake_loop parse reads r ≡ some (ok hs)
      → Completed reads r hs
  unfolding handshake_loop on_read
  loop-Completed [] r hs h = elim (Option-cases (both r.subscribe r.authorized_as)) [
    | inl waiting ↦ absurd (cc (rw (waiting, handshake_loop) at h))
    | inr ((s, b), there) ↦ stop_Completed [] r hs s b there (cc (rw (there, handshake_loop) at h))
  ]
  loop-Completed (closed ∷ reads) r hs h = elim (Option-cases (both r.subscribe r.authorized_as)) [
    | inl waiting ↦ absurd (cc (rw (waiting, handshake_loop) at h))
    | inr ((s, b), there) ↦
        stop_Completed (closed ∷ reads) r hs s b there (cc (rw (there, handshake_loop) at h))
  ]
  loop-Completed (failed ∷ reads) r hs h = elim (Option-cases (both r.subscribe r.authorized_as)) [
    | inl waiting ↦ absurd (cc (rw (waiting, handshake_loop) at h))
    | inr ((s, b), there) ↦
        stop_Completed (failed ∷ reads) r hs s b there (cc (rw (there, handshake_loop) at h))
  ]
  loop-Completed (line t ∷ reads) r hs h = elim (Option-cases (both r.subscribe r.authorized_as)) [
    | inr ((s, b), there) ↦
        stop_Completed (line t ∷ reads) r hs s b there (cc (rw (there, handshake_loop) at h))
    | inl waiting ↦ elim (Result-cases (take_reply (reply_of parse (trim t)) (trim t) r)) [
      | inl (e, refused_by) ↦ absurd (cc (rw (waiting, refused_by, handshake_loop, on_read) at h))
      | inr (next, went) ↦
          step_Completed t reads r next hs went
            (loop-Completed reads next hs (rw (waiting, went, handshake_loop, on_read) at h))
    ]
  ]

  both-none :
      (o : Option SubscribeResult) (a : Option Bool) → both o a ≡ none → (o ≡ none) ⊎ (a ≡ none)
  unfolding both
  both-none none a h = inl refl
  both-none (some s) none h = inr refl
  both-none (some s) (some b) h = absurd cc

  loop_waits :
      (reads : List LineRead) (r : Replies)
      → handshake_loop parse reads r ≡ none
      → (last_subscribe reads r.subscribe ≡ none) ⊎ (last_authorize reads r.authorized_as ≡ none)
  unfolding handshake_loop on_read
  loop_waits [] r h = elim (Option-cases (both r.subscribe r.authorized_as)) [
    | inl waiting ↦ both-none r.subscribe r.authorized_as waiting
    | inr (p, there) ↦ absurd (cc (rw (there, handshake_loop) at h))
  ]
  loop_waits (closed ∷ reads) r h = elim (Option-cases (both r.subscribe r.authorized_as)) [
    | inl waiting ↦ absurd (cc (rw (waiting, handshake_loop, on_read) at h))
    | inr (p, there) ↦ absurd (cc (rw (there, handshake_loop) at h))
  ]
  loop_waits (failed ∷ reads) r h = elim (Option-cases (both r.subscribe r.authorized_as)) [
    | inl waiting ↦ absurd (cc (rw (waiting, handshake_loop, on_read) at h))
    | inr (p, there) ↦ absurd (cc (rw (there, handshake_loop) at h))
  ]
  loop_waits (line t ∷ reads) r h = elim (Option-cases (both r.subscribe r.authorized_as)) [
    | inr (p, there) ↦ absurd (cc (rw (there, handshake_loop) at h))
    | inl waiting ↦ elim (Result-cases (take_reply (reply_of parse (trim t)) (trim t) r)) [
      | inl (e, refused_by) ↦ absurd (cc (rw (waiting, refused_by, handshake_loop, on_read) at h))
      | inr (next, went) ↦
          let (early, sub, auth) = take_reply_ok (reply_of parse (trim t)) (trim t) r next went in
          rw (← sub, ← auth)
            (loop_waits reads next (rw (waiting, went, handshake_loop, on_read) at h))
    ]
  ]

-- A handshake that succeeds has read lines in which the last subscribe result is the session's,
-- the last authorize result is true, and the lines that are neither empty nor one of these replies
-- are the early pushes, all of them and in order.
pub handshake_loop-Completed :
    (parse : Text → Option Response) (reads : List LineRead) (hs : Handshake)
    → handshake_loop parse reads no_replies ≡ some (ok hs)
    → Completed parse reads no_replies hs
handshake_loop-Completed parse reads hs h = loop-Completed parse reads no_replies hs h

-- A handshake that waits for a line has not read both replies yet.
pub handshake_loop-waits :
    (parse : Text → Option Response) (reads : List LineRead)
    → handshake_loop parse reads no_replies ≡ none
    → (last_subscribe parse reads none ≡ none) ⊎ (last_authorize parse reads none ≡ none)
handshake_loop-waits parse reads h = loop_waits parse reads no_replies h
