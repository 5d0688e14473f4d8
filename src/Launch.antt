-- ===== src/Launch.antt =====
-- src/stratum/loop_stratum.rs, one launch of the mining loop: the header for an extranonce, a CPU
-- worker's sweep of its nonces, and the gate between a found nonce and its submit. What a worker
-- reads from the atomic flags at its `i`-th nonce is the function `cancelled`.
pub mod Sweep
pub mod Gate
pub mod Mapped
pub mod Bridge
use Prim.Native.Nat.{bit_and}
use csd_mining_pool_public.Prelude.{
  ℕ, zero, suc, ◌+◌, ◌-◌, ◌%◌, Bool, not, ◌&&◌, ◌||◌, Option, none, some, List, [], ◌∷◌, ◌++◌, take,
  drop, Text, text_eq, ◌==◌, leb, if◌then◌else◌, wrapping_add,
}
use csd_mining_pool_public.Prelude.Bytes.{to_le_bytes}
use csd_mining_pool_public.Sha.{
  Sha2, sha256d, midstate_of_first_chunk_fast, finish_sha256d_from_midstate_fast,
}
use csd_mining_pool_public.Sha.Compress.{State}
use csd_mining_pool_public.Target.{hash_leq_target}
use csd_mining_pool_public.Work.{WorkTemplate, coinbase_txid, merkle_root_from_branch, header_84}
use csd_mining_pool_public.Mapping.{compose_extranonce}

-- `hdr`: the header with nonce 0.
unfoldable pub launch_header : Sha2 → WorkTemplate → ℕ → ℕ → List ℕ
unfolding coinbase_txid merkle_root_from_branch header_84 compose_extranonce
launch_header sha2 template xn1_low xn2 =
    let extranonce = compose_extranonce xn1_low xn2 in
    let cb_txid = coinbase_txid sha2 template.coinbase_prefix extranonce template.coinbase_suffix in
    let merkle = merkle_root_from_branch sha2 cb_txid template.merkle_branch 0 in
    header_84 template.version template.prev merkle template.time template.bits 0

pub record CpuFind : Type 0 where
  pub nonce : ℕ
  pub hash : List ℕ

-- What a worker adds to `cpu_swept`, and its find if any.
pub record Swept : Type 0 where
  pub found : Option CpuFind
  pub local_swept : ℕ

-- The hash of one nonce, from the midstate and the bytes 64 to 80 of the header.
unfoldable pub nonce_hash : Sha2 → State → List ℕ → ℕ → List ℕ
unfolding finish_sha256d_from_midstate_fast
nonce_hash sha2 midstate tail n =
    finish_sha256d_from_midstate_fast sha2 midstate (tail ++ to_le_bytes 4 n)

-- The loop of a worker with `left` nonces to go, the first of them the `i`-th nonce `n`.
unfoldable pub sweep : Sha2 → State → List ℕ → List ℕ → (ℕ → Bool) → ℕ → ℕ → ℕ → ℕ → Swept
sweep sha2 midstate tail target cancelled zero i n swept = record {
  found = none;
  local_swept = swept;
}
sweep sha2 midstate tail target cancelled (suc left) i n swept =
    let h = nonce_hash sha2 midstate tail n in
    let rest = sweep sha2 midstate tail target cancelled left (i + 1) (n + 1) (swept + 1) in
    if bit_and i 0xff == 0 && cancelled i
    then record { found = none; local_swept = swept }
    else if hash_leq_target h target
    then record { found = some (record { nonce = n; hash = h }); local_swept = swept + 1 }
    else rest

-- A worker of the range `cstart..cend`.
unfoldable pub cpu_worker : Sha2 → List ℕ → List ℕ → (ℕ → Bool) → ℕ → ℕ → Swept
unfolding sweep nonce_hash hash_leq_target midstate_of_first_chunk_fast
cpu_worker sha2 hdr target cancelled cstart cend =
    sweep sha2 (midstate_of_first_chunk_fast sha2 hdr) (take 16 (drop 64 hdr)) target cancelled
      (cend - cstart) 0 cstart 0

pub record Solution : Type 0 where
  pub job_id : Text
  pub xn2 : ℕ
  pub time : ℕ
  pub nonce : ℕ

pub data Gated : Type 0 where
  hash_mismatch : Gated
  above_target : Gated
  submit : Solution → Gated

-- The header with its last four bytes overwritten.
unfoldable pub with_nonce : List ℕ → ℕ → List ℕ
with_nonce hdr nonce = take 80 hdr ++ to_le_bytes 4 nonce

-- The correctness gate on a nonce and the hash that its device claims.
unfoldable pub gate : Sha2 → Text → WorkTemplate → List ℕ → ℕ → ℕ → List ℕ → Gated
gate sha2 job_id template hdr xn2 nonce claimed_hash =
    let cpu_hash = sha256d sha2 (with_nonce hdr nonce) in
    if not (text_eq cpu_hash claimed_hash)
    then hash_mismatch
    else if not (hash_leq_target cpu_hash template.target)
    then above_target
    else submit (record { job_id = job_id; xn2 = xn2; time = template.time; nonce = nonce })
