-- ===== src/Launch/Mapped.antt =====
-- src/stratum/mapping.rs: what a successful mapping has read of its notify.
use csd_mining_pool_public.Prelude.{
  ℕ, ◌-◌, ◌^◌, ◌≡◌, sym, ap, ◌∙◌, some, List, reverse, length, ◌==◌, ==_iff, Text,
}
use csd_mining_pool_public.Prelude.Bytes.{from_le_bytes}
use csd_mining_pool_public.Prelude.Results.{ok, bind_ok, ok_or, ok_or_ok, ok_inj, guard_ok}
use csd_mining_pool_public.Protocol.{NotifyParams}
use csd_mining_pool_public.Mapping.{
  Hex, bad_version, bad_nbits, bad_ntime, bad_hash, wrong_hash_length, bad_coinb1, bad_coinb2,
  wrong_extranonce1, MappedJob, parse_hex_u32, checked_hash32, decode_hash32, decode_branch,
  four_bytes, notify_to_template, fnv1a64,
}

-- The job of what a mapping has read.
abbrev pub job_of :
    NotifyParams
    → List ℕ
    → ℕ
    → ℕ
    → ℕ
    → List ℕ
    → List ℕ
    → List ℕ
    → List (List ℕ)
    → List ℕ
    → MappedJob
job_of n target version bits time prev prefix suffix branch xn1 = record {
  template = record {
    id = fnv1a64 n.job_id;
    version = version;
    prev = reverse prev;
    time = time;
    bits = bits;
    target = target;
    coinbase_prefix = prefix;
    extranonce_size = 8;
    coinbase_suffix = suffix;
    merkle_branch = branch;
    nonce_start = 0;
    nonce_end = 2 ^ 32 - 1;
    height = 0;
  };
  job_id = n.job_id;
  xn1_low = from_le_bytes xn1;
}

-- What a successful mapping has read.
pub record Mapped (hex : Hex) (n : NotifyParams) (xn1 : List ℕ) (target : List ℕ) (job : MappedJob)
    : Type 0 where
  pub version : ℕ
  pub bits : ℕ
  pub time : ℕ
  pub prev : List ℕ
  pub prefix : List ℕ
  pub suffix : List ℕ
  pub branch : List (List ℕ)
  pub version_is : parse_hex_u32 n.version_hex ≡ some version
  pub bits_is : parse_hex_u32 n.nbits_hex ≡ some bits
  pub time_is : parse_hex_u32 n.ntime_hex ≡ some time
  pub prev_is : hex.decode n.prev_hash_be_hex ≡ some prev
  pub prev_length : length prev ≡ 32
  pub prefix_is : hex.decode n.coinb1_hex ≡ some prefix
  pub suffix_is : hex.decode n.coinb2_hex ≡ some suffix
  pub branch_is : decode_branch hex n.merkle_branches_hex ≡ ok branch
  pub xn1_length : length xn1 ≡ 4
  pub job_is : job_of n target version bits time prev prefix suffix branch xn1 ≡ job

pub decode_hash32_ok :
    (hex : Hex) (s : Text) (v : List ℕ)
    → decode_hash32 hex s ≡ ok v
    → (hex.decode s ≡ some v) × (length v ≡ 32)
unfolding decode_hash32 checked_hash32
decode_hash32_ok hex s v h =
    let (u, decoded, h) = bind_ok (ok_or (hex.decode s) bad_hash) h in
    let (long, h) = guard_ok (length u == 32) (wrong_hash_length (length u)) h in
    let same : u ≡ v = ok_inj h in
    (
      ok_or_ok (hex.decode s) bad_hash decoded ∙ ap some same,
      sym (ap length same) ∙ (==_iff (length u) 32).0 long,
    )

four_bytes_ok : (xn1 v : List ℕ) → four_bytes xn1 ≡ ok v → (xn1 ≡ v) × (length xn1 ≡ 4)
unfolding four_bytes
four_bytes_ok xn1 v h =
    let (long, h) = guard_ok (length xn1 == 4) (wrong_extranonce1 (length xn1)) h in
    (ok_inj h, (==_iff (length xn1) 4).0 long)

pub notify_to_template_ok :
    (hex : Hex) (n : NotifyParams) (xn1 target : List ℕ) (job : MappedJob)
    → notify_to_template hex n xn1 target ≡ ok job
    → Mapped hex n xn1 target job
unfolding notify_to_template
notify_to_template_ok hex n xn1 target job h =
    let (version, version_is, h) = bind_ok (ok_or (parse_hex_u32 n.version_hex) bad_version) h in
    let (bits, bits_is, h) = bind_ok (ok_or (parse_hex_u32 n.nbits_hex) bad_nbits) h in
    let (time, time_is, h) = bind_ok (ok_or (parse_hex_u32 n.ntime_hex) bad_ntime) h in
    let (prev, prev_is, h) = bind_ok (decode_hash32 hex n.prev_hash_be_hex) h in
    let (prefix, prefix_is, h) = bind_ok (ok_or (hex.decode n.coinb1_hex) bad_coinb1) h in
    let (suffix, suffix_is, h) = bind_ok (ok_or (hex.decode n.coinb2_hex) bad_coinb2) h in
    let (branch, branch_is, h) = bind_ok (decode_branch hex n.merkle_branches_hex) h in
    let (arr, four, h) = bind_ok (four_bytes xn1) h in
    let (same, xn1_length) = four_bytes_ok xn1 arr four in
    record {
      version = version;
      bits = bits;
      time = time;
      prev = prev;
      prefix = prefix;
      suffix = suffix;
      branch = branch;
      version_is = ok_or_ok (parse_hex_u32 n.version_hex) bad_version version_is;
      bits_is = ok_or_ok (parse_hex_u32 n.nbits_hex) bad_nbits bits_is;
      time_is = ok_or_ok (parse_hex_u32 n.ntime_hex) bad_ntime time_is;
      prev_is = (decode_hash32_ok hex n.prev_hash_be_hex prev prev_is).0;
      prev_length = (decode_hash32_ok hex n.prev_hash_be_hex prev prev_is).1;
      prefix_is = ok_or_ok (hex.decode n.coinb1_hex) bad_coinb1 prefix_is;
      suffix_is = ok_or_ok (hex.decode n.coinb2_hex) bad_coinb2 suffix_is;
      branch_is = branch_is;
      xn1_length = xn1_length;
      job_is = ap (job_of n target version bits time prev prefix suffix branch) same ∙ ok_inj h;
    }
