-- ===== src/Mining/Turn/Shares.antt =====
-- src/stratum/loop_stratum.rs: what the loop does with the finds of a launch.
use csd_mining_pool_public.Prelude.{
  ℕ, zero, suc, ◌+◌, ◌^◌, ◌<◌, ◌≡◌, refl, sym, ap, ap₂, ◌∙◌, ◌⊎◌, inl, inr, Bool, Option, none,
  some, List, [], ◌∷◌, length, get_elem?, arith, lt→ltb, Option-cases,
}
use csd_mining_pool_public.Prelude.Results.{ok, err}
use csd_mining_pool_public.Sha.{Sha2}
use csd_mining_pool_public.Target.{hash_leq_target}
use csd_mining_pool_public.Launch.{Solution, CpuFind, Swept, submit, gate, cpu_worker}
use csd_mining_pool_public.Launch.Gate.{gate_iff, gate-cpu_worker}
use csd_mining_pool_public.CpuBackend.{MiningResult, hash_range}
use csd_mining_pool_public.CpuBackend.Sound.{hash_range_found}
use csd_mining_pool_public.Mining.Source.{LoopWork}
use csd_mining_pool_public.Mining.Turn.{
  WinSource, gpu, cpu, pick_win, win_nonce, win_hash, RateOps, on_gated, settle, cpu_winner,
  workers, find_of, Surroundings, gpu_outcome, count_cpu, finish_turn,
}
use csd_mining_pool_public.Mining.Sweeps.{
  DeviceError, Vars, Readings, absorb, clean_sweep, faulted_sweep,
}
use csd_mining_pool_public.Mining.Turn.Launches.{absorb-xn2}

-- The solution of a nonce in a turn.
abbrev pub solution : LoopWork → Vars → ℕ → Solution
solution work v nonce = record {
  job_id = work.job_id;
  xn2 = v.xn2;
  time = work.template.time;
  nonce = nonce;
}

-- A worker that wins is one of the workers, with its find.
cpu_winner_find :
    (ws : List Swept) (order : List ℕ) (c : CpuFind)
    → cpu_winner ws order ≡ some c
    → (i : ℕ) × (find_of (get_elem? ws i) ≡ some c)
unfolding cpu_winner
cpu_winner_find ws [] c h = absurd cc
cpu_winner_find ws (i ∷ order) c h = elim (Option-cases (find_of (get_elem? ws i))) [
  | inl no_find ↦ cpu_winner_find ws order c (ground arith)
  | inr (d, e) ↦ (i, ground arith)
]

module _ (sha2 : Sha2) (hdr target : List ℕ) where
  -- Each of the workers sweeps a range.
  workers_find :
      (ranges : List (ℕ × ℕ)) (cancelled : ℕ → ℕ → Bool) (k i : ℕ) (c : CpuFind)
      → find_of (get_elem? (workers sha2 hdr target cancelled k ranges) i) ≡ some c
      → (reads : ℕ → Bool) × (cstart : ℕ) × (cend : ℕ) × ((cpu_worker sha2 hdr target reads cstart
            cend).found
          ≡ some c)
  unfolding workers find_of
  workers_find [] cancelled k i c h = absurd cc
  workers_find ((a, b) ∷ ranges) cancelled k zero c h = (cancelled k, a, b, h)
  workers_find ((a, b) ∷ ranges) cancelled k (suc i) c h =
      workers_find ranges cancelled (k + 1) i c h

module _ (f : RateOps) (sha2 : Sha2) (work : LoopWork) (hdr : List ℕ) (env : Surroundings) where
  -- The win of a turn that passes the gate is sent.
  finish_turn_sends :
      (a b : ℕ) (ws : List Swept) (v : Vars) (w : WinSource) (s : Solution)
      → pick_win
          (absorb (gpu_outcome env hdr a b) a b env.now (count_cpu ws v)).found
          (cpu_winner ws env.order)
        ≡ some w
      → gate sha2 work.job_id work.template hdr v.xn2 (win_nonce w) (win_hash w) ≡ submit s
      → (finish_turn f sha2 work hdr (a, b) ws env v).submitted ≡ some s
  unfolding finish_turn settle on_gated
  finish_turn_sends a b ws v w s won passed =
      let abs = absorb (gpu_outcome env hdr a b) a b env.now (count_cpu ws v) in
      let same : abs.vars.xn2 ≡ v.xn2 =
        absorb-xn2 (gpu_outcome env hdr a b) a b env.now (count_cpu ws v)
        ∙ (unfold count_cpu in refl) in
      ap (λ o. (settle f sha2 work hdr env.now abs.recovers abs.vars o).submitted) won
      ∙ ap
          (λ x.
            (on_gated (gate sha2 work.job_id work.template hdr x (win_nonce w) (win_hash w))
              abs.recovers abs.vars).submitted)
          same
      ∙ ap (λ g. (on_gated g abs.recovers abs.vars).submitted) passed

absorb_found :
    (found : Option MiningResult) (a b : ℕ) (now : Readings) (v : Vars)
    → (absorb (ok found) a b now v).found ≡ found
unfolding absorb clean_sweep
absorb_found found a b now v = refl

absorb_fault :
    (e : DeviceError) (a b : ℕ) (now : Readings) (v : Vars)
    → (absorb (err e) a b now v).found ≡ none
unfolding absorb faulted_sweep
absorb_fault e a b now v = ground arith

-- A find of the CPU backend's sweep of an 84-byte header is sent by the turn that asked for the
-- sweep, whatever the CPU workers found: the GPU's range is not empty and ends below 2 ^ 32, and
-- the backend has fewer than 2 ^ 50 threads, under any schedule.
pub finish_turn-hash_range :
    (f : RateOps) (sha2 : Sha2) (work : LoopWork) (hdr : List ℕ) (env : Surroundings)
    (gstart gend : ℕ) (ws : List Swept) (v : Vars) (threads : ℕ) (schedule : List (ℕ × Bool))
    (r : MiningResult)
    → length hdr ≡ 84
    → gstart < gend
    → gend < 2 ^ 32
    → threads < 2 ^ 50
    → hash_range sha2 threads hdr work.template.target gstart gend schedule ≡ some (some r)
    → env.device hdr gstart gend ≡ ok (some r)
    → (finish_turn f sha2 work hdr (gstart, gend) ws env v).submitted
      ≡ some (solution work v r.nonce)
finish_turn-hash_range f sha2 work hdr env gstart gend ws v threads schedule r long some_nonce small
      few swept answer =
    let (low, high, same, under) =
      hash_range_found sha2 threads hdr work.template.target gstart gend schedule r long
        (omega arith) small few swept in
    let outcome : gpu_outcome env hdr gstart gend ≡ ok (some r) =
      unfold gpu_outcome in rw (lt→ltb gstart gend some_nonce) answer in
    finish_turn_sends f sha2 work hdr env gstart gend ws v (gpu r) (solution work v r.nonce)
      (ap
          (λ o.
            pick_win (absorb o gstart gend env.now (count_cpu ws v)).found
              (cpu_winner ws env.order))
          outcome
        ∙ ap (λ o. pick_win o (cpu_winner ws env.order))
            (absorb_found (some r) gstart gend env.now (count_cpu ws v))
        ∙ (unfold pick_win in refl))
      (unfold win_nonce win_hash in
        (gate_iff sha2 work.job_id work.template hdr v.xn2 r.nonce r.hash
            (solution work v r.nonce)).1
          (sym same, sym (ap (λ t. hash_leq_target t work.template.target) same) ∙ under, refl))

-- Where the device faults or finds nothing, a find of the CPU workers of a launch of an 84-byte
-- header is sent by the turn.
pub finish_turn-workers :
    (f : RateOps) (sha2 : Sha2) (work : LoopWork) (hdr : List ℕ) (env : Surroundings)
    (gstart gend : ℕ) (ranges : List (ℕ × ℕ)) (v : Vars) (c : CpuFind)
    → length hdr ≡ 84
    → ((e : DeviceError) × (gpu_outcome env hdr gstart gend ≡ err e))
      ⊎ (gpu_outcome env hdr gstart gend ≡ ok none)
    → cpu_winner (workers sha2 hdr work.template.target env.cancelled 0 ranges) env.order ≡ some c
    → (finish_turn f sha2 work hdr
        (gstart, gend)
        (workers sha2 hdr work.template.target env.cancelled 0 ranges)
        env
        v).submitted
      ≡ some (solution work v c.nonce)
finish_turn-workers f sha2 work hdr env gstart gend ranges v c long no_find won =
    let ws = workers sha2 hdr work.template.target env.cancelled 0 ranges in
    let (i, at_i) = cpu_winner_find ws env.order c won in
    let (reads, cstart, cend, found) =
      workers_find sha2 hdr work.template.target ranges env.cancelled 0 i c at_i in
    let nothing : (absorb (gpu_outcome env hdr gstart gend) gstart gend env.now
          (count_cpu ws v)).found
        ≡ none =
      elim no_find [
        | inl (e, fault) ↦
            ap (λ o. (absorb o gstart gend env.now (count_cpu ws v)).found) fault
            ∙ absorb_fault e gstart gend env.now (count_cpu ws v)
        | inr clean ↦
            ap (λ o. (absorb o gstart gend env.now (count_cpu ws v)).found) clean
            ∙ absorb_found none gstart gend env.now (count_cpu ws v)
      ] in
    finish_turn_sends f sha2 work hdr env gstart gend ws v (cpu c) (solution work v c.nonce)
      (ap₂ pick_win nothing won ∙ (unfold pick_win in refl))
      (unfold win_nonce win_hash in
        gate-cpu_worker sha2 work.job_id work.template hdr v.xn2 reads cstart cend c long found)
