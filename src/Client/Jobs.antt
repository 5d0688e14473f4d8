-- ===== src/Client/Jobs.antt =====
-- src/stratum/client.rs: what a pushed frame does to the job and to the preemption flag.
use csd_mining_pool_public.Prelude.{
  ℕ, ◌≡◌, refl, sym, ap, ◌∙◌, Bool, true, false, not, ◌||◌, Option, none, some, [], ◌∷◌, Text,
  codes, arith, text_eq, text_eq_refl, get_elem?, if◌then◌else◌,
}
use csd_mining_pool_public.Prelude.Float.{F64}
use csd_mining_pool_public.Prelude.Results.{Result, ok, err, and_then}
use csd_mining_pool_public.Protocol.{
  Notification, NotifyParams, ParseError, parse_notify, as_array, as_f64,
}
use csd_mining_pool_public.Protocol.Roundtrip.{notify_value, parse_notify_iff}
use csd_mining_pool_public.Client.{Codec, SessionStats, StratumJob, Shared}
use csd_mining_pool_public.Client.Reader.{
  job_changed, prev_changed, on_notify, on_parsed, on_difficulty, on_note, dispatch_frame,
}

pub dispatch-on_notify :
    (codec : Codec) (c : ℕ) (line : Text) (now_ms : ℕ) (s : Shared) (n : NotifyParams)
    → codec.notification (c ∷ line)
      ≡ some (record { method = codes "mining.notify"; params = notify_value n })
    → dispatch_frame codec (c ∷ line) now_ms s ≡ on_notify n now_ms s
unfolding dispatch_frame on_note on_parsed
dispatch-on_notify codec c line now_ms s n h =
    rw (h, (parse_notify_iff (notify_value n) n).1 refl, text_eq_refl (codes "mining.notify")) refl

raised : (b old : Bool) → (if b then true else old) ≡ (b || old)
raised b old = ground arith

stamped_job :
    (b : Bool) (now_ms : ℕ) (s : SessionStats)
    → SessionStats.last_new_job_ms (if b then record s { last_new_job_ms = now_ms } else s)
      ≡ (if b then now_ms else s.last_new_job_ms)
stamped_job true now_ms s = refl
stamped_job false now_ms s = refl

-- A notify frame puts its job in the slot with the session's extranonce1, stamps the staleness
-- clock exactly for a new job id, raises the preemption flag exactly for a new prev-hash, and
-- keeps the difficulty.
pub dispatch_notify :
    (codec : Codec) (c : ℕ) (line : Text) (now_ms : ℕ) (s : Shared) (n : NotifyParams)
    → codec.notification (c ∷ line)
      ≡ some (record { method = codes "mining.notify"; params = notify_value n })
    → let t = dispatch_frame codec (c ∷ line) now_ms s in
      (t.latest_job ≡ some (record { notify = n; extranonce1_hex = s.extranonce1_hex }))
      × (t.new_job ≡ (prev_changed s.latest_job n || s.new_job))
      × (t.stats.last_new_job_ms
          ≡ (if job_changed s.latest_job n then now_ms else s.stats.last_new_job_ms))
      × (t.difficulty ≡ s.difficulty)
unfolding on_notify
dispatch_notify codec c line now_ms s n h =
    let e = dispatch-on_notify codec c line now_ms s n h in
    (
      ap (λ (t : Shared). t.latest_job) e,
      ap (λ (t : Shared). t.new_job) e ∙ raised (prev_changed s.latest_job n) s.new_job,
      ap (λ (t : Shared). t.stats.last_new_job_ms) e
          ∙ stamped_job (job_changed s.latest_job n) now_ms s.stats,
      ap (λ (t : Shared). t.difficulty) e,
    )

-- What a frame does to the slot and the flag: nothing, or what `on_notify` does.
pub data Handled (s : Shared) (now_ms : ℕ) (t : Shared) : Type 0 where
  kept : t.latest_job ≡ s.latest_job → t.new_job ≡ s.new_job → Handled s now_ms t
  notified : (n : NotifyParams) → t ≡ on_notify n now_ms s → Handled s now_ms t

on_parsed-Handled :
    (r : Result ParseError NotifyParams) (now_ms : ℕ) (s : Shared)
    → Handled s now_ms (on_parsed r now_ms s)
unfolding on_parsed
on_parsed-Handled (ok n) now_ms s = notified n refl
on_parsed-Handled (err e) now_ms s = kept refl refl

on_difficulty-Handled :
    (o : Option F64) (now_ms : ℕ) (s : Shared) → Handled s now_ms (on_difficulty o s)
unfolding on_difficulty
on_difficulty-Handled none now_ms s = kept refl refl
on_difficulty-Handled (some d) now_ms s = kept refl refl

if-Handled :
    (b : Bool) (now_ms : ℕ) (s t u : Shared)
    → Handled s now_ms t
    → Handled s now_ms u
    → Handled s now_ms (if b then t else u)
if-Handled true now_ms s t u h k = h
if-Handled false now_ms s t u h k = k

on_note-Handled :
    (o : Option Notification) (now_ms : ℕ) (s : Shared) → Handled s now_ms (on_note o now_ms s)
unfolding on_note
on_note-Handled none now_ms s = kept refl refl
on_note-Handled (some note) now_ms s =
    if-Handled (text_eq note.method (codes "mining.notify")) now_ms s _ _
      (on_parsed-Handled (parse_notify note.params) now_ms s)
      (if-Handled (text_eq note.method (codes "mining.set_difficulty")) now_ms s _ s
        (on_difficulty-Handled
          (and_then (and_then (as_array note.params) (λ a. get_elem? a 0)) as_f64) now_ms s)
        (kept refl refl))

pub dispatch_frame-Handled :
    (codec : Codec) (line : Text) (now_ms : ℕ) (s : Shared)
    → Handled s now_ms (dispatch_frame codec line now_ms s)
unfolding dispatch_frame
dispatch_frame-Handled codec [] now_ms s = kept refl refl
dispatch_frame-Handled codec (c ∷ line) now_ms s =
    on_note-Handled (codec.notification (c ∷ line)) now_ms s

same_prev : (o : Option StratumJob) (j : StratumJob) → o ≡ some j → prev_changed o j.notify ≡ false
unfolding prev_changed
same_prev none j h = absurd cc
same_prev (some k) j h =
    let e : k ≡ j = cc h in
    ap (λ (t : StratumJob). not (text_eq t.notify.prev_hash_be_hex j.notify.prev_hash_be_hex)) e
    ∙ ap not (text_eq_refl j.notify.prev_hash_be_hex)

pub on_notify_is :
    (n : NotifyParams) (now_ms : ℕ) (s : Shared)
    → on_notify n now_ms s ≡ record s {
      latest_job = some (record { notify = n; extranonce1_hex = s.extranonce1_hex });
      stats =
          if job_changed s.latest_job n
          then record s.stats { last_new_job_ms = now_ms }
          else s.stats;
      new_job = if prev_changed s.latest_job n then true else s.new_job;
    }
unfolding on_notify
on_notify_is n now_ms s = refl

-- No frame leaves a job with another prev-hash than the slot had, or the first job, in the slot
-- without the preemption flag being up.
pub dispatch_frame_preempts :
    (codec : Codec) (line : Text) (now_ms : ℕ) (s : Shared) (j : StratumJob)
    → (dispatch_frame codec line now_ms s).latest_job ≡ some j
    → prev_changed s.latest_job j.notify ≡ true
    → (dispatch_frame codec line now_ms s).new_job ≡ true
dispatch_frame_preempts codec line now_ms s j at changed =
    by_effect (dispatch_frame codec line now_ms s) (dispatch_frame-Handled codec line now_ms s) at
  where
    by_effect : (t : Shared) → Handled s now_ms t → t.latest_job ≡ some j → t.new_job ≡ true
    by_effect t (kept slot flag) here =
        absurd (cc (same_prev s.latest_job j (sym slot ∙ here), changed))
    by_effect t (notified n e) here =
        let slot : some (record { notify = n; extranonce1_hex = s.extranonce1_hex }) ≡ some j =
          sym (ap (λ (u : Shared). u.latest_job) (e ∙ on_notify_is n now_ms s)) ∙ here in
        let same : record { notify = n; extranonce1_hex = s.extranonce1_hex } ≡ j = cc slot in
        ap (λ (u : Shared). u.new_job) (e ∙ on_notify_is n now_ms s)
        ∙ ap (λ b. if b then true else s.new_job)
            (ap (λ (k : StratumJob). prev_changed s.latest_job k.notify) same ∙ changed)
