-- ===== src/Launch/Gate.antt =====
-- src/stratum/loop_stratum.rs: the gate, and the pool's view of what it submits.
use csd_mining_pool_public.Prelude.{
  ℕ, ◌^◌, subst, ◌<◌, ◌≡◌, refl, sym, ap, ◌∙◌, ◌↔◌, Bool, true, some, List, length, arith, Text,
  text_eq_iff,
}
use csd_mining_pool_public.Prelude.Bytes.{IsBytes, to_le_bytes}
use csd_mining_pool_public.Prelude.Results.{ok}
use csd_mining_pool_public.Sha.{Sha2, sha256d}
use csd_mining_pool_public.Protocol.{NotifyParams}
use csd_mining_pool_public.Work.{WorkTemplate}
use csd_mining_pool_public.Mapping.{Hex, MappedJob, parse_hex_u32, build_submit, notify_to_template}
use csd_mining_pool_public.Target.{hash_leq_target}
use csd_mining_pool_public.Launch.{
  Solution, submit, CpuFind, with_nonce, gate, launch_header, cpu_worker,
}
use csd_mining_pool_public.Mapping.Hexadecimal.{parse_hex_u32-lt}
use csd_mining_pool_public.Mapping.Extranonce.{build_submit_decodes}
use csd_mining_pool_public.Launch.Mapped.{notify_to_template_ok}
use csd_mining_pool_public.Launch.Bridge.{
  bridge_golden_header, bridge_golden_header-notify_to_template,
}
use csd_mining_pool_public.Launch.Sweep.{cpu_worker_found}

-- The gate submits a find exactly if its claimed hash is the header's double hash and that hash
-- passes the template's target.
pub gate_iff :
    (sha2 : Sha2) (job_id : Text) (template : WorkTemplate) (hdr : List ℕ) (xn2 nonce : ℕ)
    (claimed : List ℕ) (s : Solution)
    → (gate sha2 job_id template hdr xn2 nonce claimed ≡ submit s) ↔ (
        (sha256d sha2 (with_nonce hdr nonce) ≡ claimed)
        × (hash_leq_target (sha256d sha2 (with_nonce hdr nonce)) template.target ≡ true)
        × (record { job_id = job_id; xn2 = xn2; time = template.time; nonce = nonce } ≡ s))
unfolding gate
gate_iff sha2 job_id template hdr xn2 nonce claimed s =
    ground (arith, text_eq_iff (sha256d sha2 (with_nonce hdr nonce)) claimed)

-- What the pool's side makes of a submit: the header that it rebuilds from the raw notify passes
-- the target, and the fields decode to the extranonce2, the time and the nonce of that header.
pub record Accepted (sha2 : Sha2) (hex : Hex) (n : NotifyParams) (xn1 target : List ℕ)
    (s : Solution) : Type 0 where
  pub header : List ℕ
  pub rebuilt : bridge_golden_header sha2 hex n xn1 s.xn2 s.nonce ≡ some header
  pub passes : hash_leq_target (sha256d sha2 header) target ≡ true
  pub extranonce2_sent :
      hex.decode (build_submit hex s.xn2 s.time s.nonce).extranonce2_hex
      ≡ some (to_le_bytes 4 s.xn2)
  pub time_sent :
      parse_hex_u32 (build_submit hex s.xn2 s.time s.nonce).ntime_hex ≡ parse_hex_u32 n.ntime_hex
  pub nonce_sent : parse_hex_u32 (build_submit hex s.xn2 s.time s.nonce).nonce_hex ≡ some s.nonce

-- Whatever a device claims, a share that the gate submits for a mapped job is accepted on the
-- pool's side: the header rebuilt from the raw notify passes the target, and the three submit
-- fields decode to its extranonce2, time and nonce; the extranonce1 are bytes and the nonce is a
-- u32.
pub gate-Accepted :
    (sha2 : Sha2) (hex : Hex) (n : NotifyParams) (xn1 target : List ℕ) (job : MappedJob)
    (xn2 nonce : ℕ) (claimed : List ℕ) (s : Solution)
    → IsBytes xn1
    → nonce < 2 ^ 32
    → notify_to_template hex n xn1 target ≡ ok job
    → gate sha2 job.job_id job.template
        (launch_header sha2 job.template job.xn1_low xn2)
        xn2
        nonce
        claimed
      ≡ submit s
    → Accepted sha2 hex n xn1 target s
gate-Accepted sha2 hex n xn1 target job xn2 nonce claimed s bytes fits h g =
    let hdr = launch_header sha2 job.template job.xn1_low xn2 in
    let (same, under, is_s) = (gate_iff sha2 job.job_id job.template hdr xn2 nonce claimed s).0 g in
    let m = notify_to_template_ok hex n xn1 target job h in
    let time : m.time ≡ job.template.time = ap (λ (j : MappedJob). j.template.time) m.job_is in
    let aim : target ≡ job.template.target = ap (λ (j : MappedJob). j.template.target) m.job_is in
    let time_fits : job.template.time < 2 ^ 32 =
      omega (arith, parse_hex_u32-lt n.ntime_hex m.time m.time_is) in
    let (xn2_sent, time_sent, nonce_sent) =
      build_submit_decodes hex xn2 job.template.time nonce time_fits fits in
    subst (Accepted sha2 hex n xn1 target) is_s (record {
      header = with_nonce hdr nonce;
      rebuilt = bridge_golden_header-notify_to_template sha2 hex n xn1 target job xn2 nonce bytes h;
      passes = ap (hash_leq_target (sha256d sha2 (with_nonce hdr nonce))) aim ∙ under;
      extranonce2_sent = xn2_sent;
      time_sent = time_sent ∙ ap some (sym time) ∙ sym m.time_is;
      nonce_sent = nonce_sent;
    })

-- What a CPU worker finds on an 84-byte header always passes the gate for that header, with the
-- template's target.
pub gate-cpu_worker :
    (sha2 : Sha2) (job_id : Text) (template : WorkTemplate) (hdr : List ℕ) (xn2 : ℕ)
    (cancelled : ℕ → Bool) (cstart cend : ℕ) (c : CpuFind)
    → length hdr ≡ 84
    → (cpu_worker sha2 hdr template.target cancelled cstart cend).found ≡ some c
    → gate sha2 job_id template hdr xn2 c.nonce c.hash
      ≡ submit (record { job_id = job_id; xn2 = xn2; time = template.time; nonce = c.nonce })
gate-cpu_worker sha2 job_id template hdr xn2 cancelled cstart cend c long h =
    let (low, high, same, under) =
      cpu_worker_found sha2 hdr template.target cancelled cstart cend c long h in
    (gate_iff sha2 job_id template hdr xn2 c.nonce c.hash _).1
      (sym same, sym (ap (λ t. hash_leq_target t template.target) same) ∙ under, refl)
