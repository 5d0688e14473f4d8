-- ===== src/Client/Handshake/FirstJob.antt =====
-- src/stratum/client.rs: the jobs that come before the authorize reply.
use csd_mining_pool_public.Prelude.{ℕ, ◌≡◌, ap, ◌∙◌, some, List, [], ◌∷◌, ◌++◌, Text, codes}
use csd_mining_pool_public.Protocol.{NotifyParams}
use csd_mining_pool_public.Protocol.Roundtrip.{notify_value}
use csd_mining_pool_public.Client.{Codec, StratumJob, Shared}
use csd_mining_pool_public.Client.Reader.{Handshake, dispatch_frame, dispatch_all}
use csd_mining_pool_public.Client.Jobs.{
  Handled, kept, notified, dispatch_frame-Handled, dispatch_notify, on_notify_is,
}
use csd_mining_pool_public.Client.Handshake.{new_shared, default_stats, connected_shared}

-- The slot of a session holds a job.
abbrev pub HasJob : Shared → Type 0
HasJob s = (j : StratumJob) × (s.latest_job ≡ some j)

Handled-has : (now_ms : ℕ) (s t : Shared) → Handled s now_ms t → HasJob s → HasJob t
Handled-has now_ms s t (kept slot flag) (j, there) = (j, slot ∙ there)
Handled-has now_ms s t (notified n e) h = (
  record { notify = n; extranonce1_hex = s.extranonce1_hex },
  ap (λ (u : Shared). u.latest_job) (e ∙ on_notify_is n now_ms s),
)

dispatch_all-HasJob :
    (codec : Codec) (pushes : List Text) (now_ms : ℕ) (s : Shared)
    → HasJob s
    → HasJob (dispatch_all codec pushes now_ms s)
unfolding dispatch_all
dispatch_all-HasJob codec [] now_ms s h = h
dispatch_all-HasJob codec (p ∷ pushes) now_ms s h =
    dispatch_all-HasJob codec pushes now_ms (dispatch_frame codec p now_ms s) (
      Handled-has now_ms s (dispatch_frame codec p now_ms s)
        (dispatch_frame-Handled codec p now_ms s) h)

dispatch_all_notified :
    (codec : Codec) (before : List Text) (c : ℕ) (line : Text) (after : List Text) (now_ms : ℕ)
    (s : Shared) (n : NotifyParams)
    → codec.notification (c ∷ line)
      ≡ some (record { method = codes "mining.notify"; params = notify_value n })
    → HasJob (dispatch_all codec (before ++ ((c ∷ line) ∷ after)) now_ms s)
unfolding dispatch_all
dispatch_all_notified codec [] c line after now_ms s n is_notify =
    dispatch_all-HasJob codec after now_ms (dispatch_frame codec (c ∷ line) now_ms s) (
      record { notify = n; extranonce1_hex = s.extranonce1_hex },
      (dispatch_notify codec c line now_ms s n is_notify).0,
    )
dispatch_all_notified codec (p ∷ before) c line after now_ms s n is_notify =
    dispatch_all_notified codec before c line after now_ms (dispatch_frame codec p now_ms s) n
      is_notify

-- A job that the server pushed before the authorize reply is not lost: after the connect the slot
-- holds a job, wherever among the early pushes the notify was.
pub connected_shared-HasJob :
    (codec : Codec) (endpoint : Text) (now_ms : ℕ) (hs : Handshake) (before : List Text) (c : ℕ)
    (line : Text) (after : List Text) (n : NotifyParams)
    → hs.early_pushes ≡ before ++ ((c ∷ line) ∷ after)
    → codec.notification (c ∷ line)
      ≡ some (record { method = codes "mining.notify"; params = notify_value n })
    → HasJob (connected_shared codec endpoint now_ms hs)
unfolding connected_shared
connected_shared-HasJob codec endpoint now_ms hs before c line after n early is_notify =
    let start = new_shared hs.subscribe endpoint default_stats in
    let (j, there) = dispatch_all_notified codec before c line after now_ms start n is_notify in
    (j, ap (λ ps. (dispatch_all codec ps now_ms start).latest_job) early ∙ there)
