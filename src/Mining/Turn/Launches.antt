-- ===== src/Mining/Turn/Launches.antt =====
-- src/stratum/loop_stratum.rs: the extranonces that the turns of the loop use.
use csd_mining_pool_public.Prelude.{
  ℕ, zero, suc, ◌+◌, ◌%◌, ◌^◌, ◌<◌, ◌≡◌, ◌≢◌, refl, sym, ap, ◌∙◌, Bool, Option, none, some, List,
  [], ◌∷◌, get_elem?, arith, wrapping_add,
}
use csd_mining_pool_public.Prelude.Results.{ok, err}
use csd_mining_pool_public.Sha.{Sha2}
use csd_mining_pool_public.Partition.{Share, partition_nonce_range}
use csd_mining_pool_public.Launch.{
  Solution, Gated, hash_mismatch, above_target, submit, gate, Swept, launch_header,
}
use csd_mining_pool_public.Launch.Gate.{gate_iff}
use csd_mining_pool_public.Mining.Source.{LoopWork}
use csd_mining_pool_public.Mining.Turn.{
  WinSource, pick_win, win_nonce, win_hash, RateOps, Turned, roll, on_gated, on_exhausted, settle,
  cpu_winner, workers, Surroundings, gpu_outcome, count_cpu, finish_turn, turn, turns,
}
use csd_mining_pool_public.Mining.Sweeps.{
  Outcome, Vars, Readings, absorb, clean_sweep, faulted_sweep,
}

on_gated_rolls :
    (g : Gated) (r : Bool) (v : Vars) → (on_gated g r v).vars.xn2 ≡ wrapping_add v.xn2 1
unfolding on_gated roll
on_gated_rolls hash_mismatch r v = refl
on_gated_rolls above_target r v = refl
on_gated_rolls (submit s) r v = refl

on_exhausted_rolls :
    (f : RateOps) (now : Readings) (r : Bool) (v : Vars)
    → (on_exhausted f now r v).vars.xn2 ≡ wrapping_add v.xn2 1
unfolding on_exhausted roll
on_exhausted_rolls f now r v = ground arith

settle_rolls :
    (f : RateOps) (sha2 : Sha2) (work : LoopWork) (hdr : List ℕ) (now : Readings) (r : Bool)
    (v : Vars) (win : Option WinSource)
    → (settle f sha2 work hdr now r v win).vars.xn2 ≡ wrapping_add v.xn2 1
unfolding settle
settle_rolls f sha2 work hdr now r v none = on_exhausted_rolls f now r v
settle_rolls f sha2 work hdr now r v (some win) =
    on_gated_rolls (gate sha2 work.job_id work.template hdr v.xn2 (win_nonce win) (win_hash win)) r
      v

pub absorb-xn2 :
    (o : Outcome) (a b : ℕ) (now : Readings) (v : Vars) → (absorb o a b now v).vars.xn2 ≡ v.xn2
unfolding absorb clean_sweep faulted_sweep
absorb-xn2 (ok found) a b now v = refl
absorb-xn2 (err e) a b now v = ground arith

on_gated_submits :
    (g : Gated) (r : Bool) (v : Vars) (s : Solution)
    → (on_gated g r v).submitted ≡ some s
    → g ≡ submit s
unfolding on_gated
on_gated_submits hash_mismatch r v s h = absurd cc
on_gated_submits above_target r v s h = absurd cc
on_gated_submits (submit t) r v s h = cc

exhausted_silent :
    (f : RateOps) (now : Readings) (r : Bool) (v : Vars) → (on_exhausted f now r v).submitted ≡ none
unfolding on_exhausted
exhausted_silent f now r v = ground arith

-- A turn that sends a share has had it from the gate.
pub settle_submits :
    (f : RateOps) (sha2 : Sha2) (work : LoopWork) (hdr : List ℕ) (now : Readings) (r : Bool)
    (v : Vars) (win : Option WinSource) (s : Solution)
    → (settle f sha2 work hdr now r v win).submitted ≡ some s
    → (w : WinSource) × (win ≡ some w)
      × (gate sha2 work.job_id work.template hdr v.xn2 (win_nonce w) (win_hash w) ≡ submit s)
unfolding settle
settle_submits f sha2 work hdr now r v none s h = absurd (cc (exhausted_silent f now r v))
settle_submits f sha2 work hdr now r v (some w) s h = (
  w,
  refl,
  on_gated_submits (gate sha2 work.job_id work.template hdr v.xn2 (win_nonce w) (win_hash w)) r v s
      h,
)

-- What the settled part of a turn is.
module _ (f : RateOps) (sha2 : Sha2) (work : LoopWork) (hdr : List ℕ) (env : Surroundings) where
  pub finish_turn-xn2 :
      (g : ℕ × ℕ) (ws : List Swept) (v : Vars)
      → (finish_turn f sha2 work hdr g ws env v).vars.xn2 ≡ wrapping_add v.xn2 1
  unfolding finish_turn count_cpu
  finish_turn-xn2 (a, b) ws v =
      let abs = absorb (gpu_outcome env hdr a b) a b env.now (count_cpu ws v) in
      settle_rolls f sha2 work hdr env.now abs.recovers abs.vars
        (pick_win abs.found (cpu_winner ws env.order))
      ∙ ap (λ x. wrapping_add x 1)
          (absorb-xn2 (gpu_outcome env hdr a b) a b env.now (count_cpu ws v))

  pub finish_turn_submits :
      (g : ℕ × ℕ) (ws : List Swept) (v : Vars) (s : Solution)
      → (finish_turn f sha2 work hdr g ws env v).submitted ≡ some s
      → (w : WinSource) × (gate sha2 work.job_id work.template hdr v.xn2 (win_nonce w) (win_hash w)
          ≡ submit s)
  unfolding finish_turn count_cpu
  finish_turn_submits (a, b) ws v s h =
      let abs = absorb (gpu_outcome env hdr a b) a b env.now (count_cpu ws v) in
      let (w, is_w, passed) =
        settle_submits f sha2 work hdr env.now abs.recovers abs.vars
          (pick_win abs.found (cpu_winner ws env.order)) s h in
      (
        w,
        ap (λ x. gate sha2 work.job_id work.template hdr x (win_nonce w) (win_hash w))
              (sym (absorb-xn2 (gpu_outcome env hdr a b) a b env.now (count_cpu ws v)))
            ∙ passed,
      )

module _ (f : RateOps) (sha2 : Sha2) (share : Share) (cpu_threads : ℕ) where
  pub turn-xn2 :
      (work : LoopWork) (env : Surroundings) (v : Vars)
      → (turn f sha2 share cpu_threads work env v).vars.xn2 ≡ wrapping_add v.xn2 1
  unfolding turn
  turn-xn2 work env v =
      let hdr = launch_header sha2 work.template work.xn1_low v.xn2 in
      let (gpu_range, cpu_ranges) =
        partition_nonce_range work.template.nonce_start work.template.nonce_end share cpu_threads in
      finish_turn-xn2 f sha2 work hdr env gpu_range
        (workers sha2 hdr work.template.target env.cancelled 0 cpu_ranges) v

  -- The share that a turn sends came through the gate, for the header of its extranonce.
  pub turn_gated :
      (work : LoopWork) (env : Surroundings) (v : Vars) (s : Solution)
      → (turn f sha2 share cpu_threads work env v).submitted ≡ some s
      → (w : WinSource) × (gate sha2 work.job_id work.template
            (launch_header sha2 work.template work.xn1_low v.xn2)
            v.xn2
            (win_nonce w)
            (win_hash w)
          ≡ submit s)
  unfolding turn
  turn_gated work env v s h =
      let hdr = launch_header sha2 work.template work.xn1_low v.xn2 in
      let (gpu_range, cpu_ranges) =
        partition_nonce_range work.template.nonce_start work.template.nonce_end share cpu_threads in
      finish_turn_submits f sha2 work hdr env gpu_range
        (workers sha2 hdr work.template.target env.cancelled 0 cpu_ranges) v s h

  submitted-xn2 :
      (work : LoopWork) (env : Surroundings) (v : Vars) (s : Solution)
      → (turn f sha2 share cpu_threads work env v).submitted ≡ some s
      → s.xn2 ≡ v.xn2
  submitted-xn2 work env v s h =
      let (w, passed) = turn_gated work env v s h in
      let (same, under, is_s) =
        (gate_iff sha2 work.job_id work.template
            (launch_header sha2 work.template work.xn1_low v.xn2) v.xn2 (win_nonce w) (win_hash w)
            s).0
          passed in
      sym (ap (λ (t : Solution). t.xn2) is_s)

  -- The share of the `i`-th turn carries the first extranonce plus `i`.
  pub turns-xn2 :
      (works : List (LoopWork × Surroundings)) (v : Vars) (i : ℕ) (t : Turned) (s : Solution)
      → v.xn2 < 2 ^ 32
      → get_elem? (turns f sha2 share cpu_threads works v) i ≡ some t
      → t.submitted ≡ some s
      → s.xn2 ≡ (v.xn2 + i) % 2 ^ 32
  unfolding turns
  turns-xn2 [] v i t s small h e = absurd cc
  turns-xn2 ((work, env) ∷ later) v zero t s small h e = omega (
    arith,
    submitted-xn2 work env v s
        (ap (λ (o : Option Turned). elim o [ some k ↦ k.submitted | none ↦ none ]) h ∙ e),
  )
  turns-xn2 ((work, env) ∷ later) v (suc i) t s small h e =
      let next = turn f sha2 share cpu_threads work env v in
      omega (
        arith,
        turn-xn2 work env v,
        turns-xn2 later next.vars i t s (omega (arith, turn-xn2 work env v)) h e,
      )

apart : (x i j : ℕ) → i < j → j < i + 2 ^ 32 → (x + i) % 2 ^ 32 ≢ (x + j) % 2 ^ 32
apart x i j lt near e = omega arith

-- Shares of two turns of the loop that are fewer than 2 ^ 32 turns apart never carry the same
-- extranonce2, whatever the jobs, the devices and the workers do; the first extranonce2 is a u32.
pub turns_distinct :
    (f : RateOps) (sha2 : Sha2) (share : Share) (cpu_threads : ℕ)
    (works : List (LoopWork × Surroundings)) (v : Vars) (i j : ℕ) (t u : Turned) (s r : Solution)
    → v.xn2 < 2 ^ 32
    → i < j
    → j < i + 2 ^ 32
    → get_elem? (turns f sha2 share cpu_threads works v) i ≡ some t
    → get_elem? (turns f sha2 share cpu_threads works v) j ≡ some u
    → t.submitted ≡ some s
    → u.submitted ≡ some r
    → s.xn2 ≢ r.xn2
turns_distinct f sha2 share cpu_threads works v i j t u s r small lt near at_i at_j sent_i sent_j
      e =
    apart v.xn2 i j lt near (
      sym (turns-xn2 f sha2 share cpu_threads works v i t s small at_i sent_i)
      ∙ e
      ∙ turns-xn2 f sha2 share cpu_threads works v j u r small at_j sent_j)
