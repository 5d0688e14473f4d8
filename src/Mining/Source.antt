-- ===== src/Mining/Source.antt =====
-- src/stratum/loop_stratum.rs: the default methods of `WorkSource`, from the client's job and
-- difficulty to a unit of work and from a solution to its submit, and the seed of `xn2`. `send` is
-- `send_submit` of the client.
use Prim.Native.Nat.{bit_xor}
use csd_mining_pool_public.Prelude.{ℕ, ◌*◌, ◌++◌, List, [], ◌∷◌, Option, none, some, Text, u32}
use csd_mining_pool_public.Prelude.Bytes.{to_le_bytes}
use csd_mining_pool_public.Prelude.Float.{F64}
use csd_mining_pool_public.Prelude.Results.{Result, ok, err}
use csd_mining_pool_public.Work.{WorkTemplate}
use csd_mining_pool_public.Target.{Rounding, target_from_difficulty}
use csd_mining_pool_public.Mapping.{Hex, MapError, MappedJob, notify_to_template, build_submit}
use csd_mining_pool_public.Client.{StratumJob}
use csd_mining_pool_public.Launch.{Solution}

pub record LoopWork : Type 0 where
  pub template : WorkTemplate
  pub job_id : Text
  pub xn1_low : ℕ

pub data WorkIntake : Type 0 where
  job : LoopWork → WorkIntake
  idle : WorkIntake

-- The match on the mapping.
unfoldable pub intake_of : Result MapError MappedJob → WorkIntake
intake_of (ok mapped) =
    job (record { template = mapped.template; job_id = mapped.job_id; xn1_low = mapped.xn1_low })
intake_of (err e) = idle

-- The match on the decoded extranonce1.
unfoldable pub work_of : Hex → StratumJob → List ℕ → Option (List ℕ) → WorkIntake
unfolding intake_of
work_of hex j share_target none = idle
work_of hex j share_target (some xn1) = intake_of (notify_to_template hex j.notify xn1 share_target)

unfoldable pub next_work : Rounding → Hex → Option StratumJob → F64 → WorkIntake
unfolding work_of
next_work r hex none difficulty = idle
next_work r hex (some j) difficulty =
    work_of hex j (target_from_difficulty r difficulty) (hex.decode j.extranonce1_hex)

unfoldable pub submit_solution :
    {E : Type 0} → Hex → (Text → Text → Text → Text → Text → E) → Text → Solution → E
submit_solution hex send worker sol =
    let fields = build_submit hex sol.xn2 sol.time sol.nonce in
    send worker sol.job_id fields.extranonce2_hex fields.ntime_hex fields.nonce_hex

-- The FNV-1a step over bytes.
unfoldable pub fnv1a32 : List ℕ → ℕ → ℕ
fnv1a32 [] h = h
fnv1a32 (b ∷ bs) h = fnv1a32 bs (u32 (bit_xor h b * 0x01000193))

unfoldable pub mix_xn2_seed : ℕ → ℕ → ℕ
unfolding fnv1a32
mix_xn2_seed pid entropy = fnv1a32 (to_le_bytes 4 pid ++ to_le_bytes 4 entropy) 0x811c9dc5
