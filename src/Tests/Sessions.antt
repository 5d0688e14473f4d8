-- ===== src/Tests/Sessions.antt =====
-- The handshake of a session, and the GPU watchdog of the mining loop.
use csd_mining_pool_public.Prelude.{
  ℕ, suc, ◌+◌, ◌≤◌, ◌<◌, ◌≡◌, ◌≢◌, refl, ◌⊎◌, Bool, true, false, Option, none, some, List, [], ◌∷◌,
  arith, codes, Text, text_eq, from_secs, if◌then◌else◌,
}
use csd_mining_pool_public.Prelude.Ascii.{trim, trim_start, is_whitespace}
use csd_mining_pool_public.Prelude.Float.{of_nat, inf, nan}
use csd_mining_pool_public.Prelude.Results.{ok}
use csd_mining_pool_public.GpuWatchdog.{
  GpuWatchdogCfg, recover, default_state, is_floored, stalled, counted, snapshot_from,
  confirmed_stall, gpu_watchdog_decision, perform, gpu_watchdog_tick, watch,
}
use csd_mining_pool_public.GpuWatchdog.Streak.{state_after, stalled_run}
use csd_mining_pool_public.GpuWatchdog.Escalation.{exits}
use csd_mining_pool_public.Mining.View.{
  LoopState, view_ghs, jobs_flowing_from_health, conn_healthy_from_health, loop_gpu_view,
}
use csd_mining_pool_public.Mining.Stall.{Fresh, Wedged, loop_acts_only, Wedged-exits}
use csd_mining_pool_public.Protocol.{
  Value, null, bool, number, string, array, of_list, Response, parse_subscribe,
  parse_subscribe_fields, str_at,
}
use csd_mining_pool_public.Client.Reader.{Handshake}
use csd_mining_pool_public.Client.Handshake.{
  LineRead, line, reply_of, on_response, on_id, on_subscribe, on_authorize, parsed_subscribe,
  failure, or_false, is_empty, take_reply, both, conclude, on_read, handshake_loop, no_replies,
  connected_shared,
}
use csd_mining_pool_public.Client.Handshake.Pushes.{Completed, handshake_loop-Completed}
use csd_mining_pool_public.Client.Handshake.FirstJob.{HasJob, connected_shared-HasJob}
use csd_mining_pool_public.Tests.Pools

abbrev cfg : GpuWatchdogCfg
cfg = record {
  enabled = true;
  floor_ghs = of_nat 1;
  dwell_samples = 2;
  recover_window = from_secs 1;
  max_recoveries = 1;
  poll = from_secs 1;
}

-- A loop whose last stamp is at 100 ms.
abbrev at_ms : ℕ → LoopState ℕ
at_ms now_ms = record {
  sample = record { ghs = of_nat 9; at_ms = 100 };
  now_ms = now_ms;
  paused = false;
  job_age_s = some 5;
  backend = 0;
  exited = false;
}

abbrev rebuild : ℕ → ℕ × Bool
rebuild b = (suc b, true)

infinite_is_healthy : is_floored inf cfg.floor_ghs ≡ false
unfolding is_floored of_nat
infinite_is_healthy = refl

nothing_is_floored : is_floored (of_nat 0) cfg.floor_ghs ≡ true
unfolding is_floored of_nat
nothing_is_floored = refl

second_recovers :
    (gpu_watchdog_tick
      (loop_gpu_view rebuild 300 true)
      cfg
      (state_after (loop_gpu_view rebuild 300 true) cfg ((at_ms 1000, 1000) ∷ []))
      2000
      (at_ms 2000)).action
    ≡ recover
unfolding gpu_watchdog_tick stalled is_floored perform counted snapshot_from gpu_watchdog_decision
    confirmed_stall of_nat loop_gpu_view view_ghs jobs_flowing_from_health conn_healthy_from_health
second_recovers = refl

loop_acts_only_example :
    (false ≡ false)
    × Fresh (some 5)
    × ((at_ms 2000).sample.at_ms ≢ 0)
    × ((100 + 300 < 2000) ⊎ (is_floored (of_nat 9) cfg.floor_ghs ≡ true))
    × (2 ≤ suc (stalled_run (loop_gpu_view rebuild 300 true) cfg ((at_ms 1000, 1000) ∷ [])))
loop_acts_only_example =
    loop_acts_only rebuild 300 true cfg ((at_ms 1000, 1000) ∷ []) 2000 (at_ms 2000) refl
      infinite_is_healthy (λ e. cc (second_recovers, e))

-- Between the polls only the clock goes on.
abbrev hang : ℕ → LoopState ℕ → LoopState ℕ
hang t u = record u { now_ms = t; paused = false; job_age_s = some 5 }

five_is_fresh : jobs_flowing_from_health (some 5) ≡ true
unfolding jobs_flowing_from_health
five_is_fresh = refl

hang-Wedged : Wedged (at_ms 500).sample hang
hang-Wedged = record {
  frozen = λ t u h. h;
  clock = λ t u. refl;
  open_gate = λ t u. refl;
  flowing = λ t u. five_is_fresh;
}

Wedged-exits_example :
    exits (
      watch
        (loop_gpu_view rebuild 300 true)
        cfg
        hang
        default_state
        (at_ms 500)
        (2000 ∷ 3000 ∷ 4000 ∷ 5000 ∷ []))
    ≡ true
Wedged-exits_example =
    Wedged-exits rebuild 300 cfg hang (at_ms 500) (2000 ∷ 3000 ∷ 4000 ∷ 5000 ∷ []) refl
      (omega arith) (omega arith) nothing_is_floored (λ e. omega arith) (omega arith) refl
      five_is_fresh hang-Wedged (omega arith, (omega arith, (omega arith, (omega arith, tt))))
      (omega arith)

-- The replies to `subscribe` and to `authorize`; any other text is no response.
abbrev reply : Value
reply = array (of_list (null ∷ string (codes "aabbccdd") ∷ number nan (some 4) ∷ []))

abbrev parse : Text → Option Response
parse s =
    if text_eq s (codes "subscribed")
    then some (record { id = some 1; result = reply; error = none })
    else if text_eq s (codes "authorized")
    then some (record { id = some 2; result = bool true; error = none })
    else none

abbrev reads : List LineRead
reads =
    line (codes "n\n")
    ∷ line (codes "subscribed\n")
    ∷ line (codes "\n")
    ∷ line (codes "authorized\n")
    ∷ line (codes "later\n")
    ∷ []

abbrev shaken : Handshake
shaken = record {
  subscribe = record { extranonce1_hex = codes "aabbccdd"; extranonce2_size = 4 };
  early_pushes = codes "n" ∷ [];
}

shakes : handshake_loop parse reads no_replies ≡ some (ok shaken)
unfolding handshake_loop on_read reply_of on_response on_id on_subscribe on_authorize
    parsed_subscribe parse_subscribe parse_subscribe_fields str_at failure or_false is_empty
    take_reply both conclude trim trim_start is_whitespace text_eq
shakes = refl

handshake_loop-Completed_example : Completed parse reads no_replies shaken
handshake_loop-Completed_example = handshake_loop-Completed parse reads shaken shakes

connected_shared-HasJob_example : HasJob (connected_shared Pools.codec (codes "a:1") 99 shaken)
connected_shared-HasJob_example =
    connected_shared-HasJob Pools.codec (codes "a:1") 99 shaken [] b'n' [] [] Pools.job refl refl
