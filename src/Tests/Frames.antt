-- ===== src/Tests/Frames.antt =====
-- Frames, headers and targets.
use csd_mining_pool_public.Prelude.{
  ℕ, zero, suc, ◌/◌, ◌≤◌, ◌<◌, ◌≡◌, refl, ◌↔◌, true, some, [], ◌∷◌, codes, replicate, length, arith,
}
use csd_mining_pool_public.Prelude.Float.{nan}
use csd_mining_pool_public.Prelude.Bytes.{IsBytes, from_be_bytes}
use csd_mining_pool_public.Prelude.Results.{ok}
use csd_mining_pool_public.Protocol.{
  Value, null, number, string, array, of_list, NotifyParams, SubscribeResult, parse_notify,
}
use csd_mining_pool_public.Protocol.Roundtrip.{notify_value, parse_notify_iff}
use csd_mining_pool_public.Work.Header.{HasWidths}
use csd_mining_pool_public.Target.{hash_leq_target, u256_div_u64_be}
use csd_mining_pool_public.Target.Compare.{hash_leq_target_iff}
use csd_mining_pool_public.Target.Division.{u256_div_u64_be_lem}

abbrev notify : NotifyParams
notify = record {
  job_id = codes "deadbeefcafe";
  prev_hash_be_hex = codes "0001";
  coinb1_hex = codes "01000000aabbcc";
  coinb2_hex = codes "ffeeddccbbaa99";
  merkle_branches_hex = codes "40" ∷ codes "a0" ∷ [];
  version_hex = codes "20000000";
  nbits_hex = codes "1d00ffff";
  ntime_hex = codes "665544cc";
  clean_jobs = true;
}

parse_notify_iff_example :
    (parse_notify (notify_value notify) ≡ ok notify) ↔ (notify_value notify ≡ notify_value notify)
parse_notify_iff_example = parse_notify_iff (notify_value notify) notify

abbrev reply : Value
reply = array (of_list (null ∷ string (codes "aabbccdd") ∷ number nan (some 4) ∷ []))

abbrev subscribed : SubscribeResult
subscribed = record { extranonce1_hex = codes "aabbccdd"; extranonce2_size = 4 }

widths : HasWidths 0x20000000 (replicate 32 1) (replicate 32 2) 0x665544cc 0x1d00ffff 7
widths = record {
  version_fits = omega arith;
  prev_length = refl;
  merkle_length = refl;
  time_fits = omega arith;
  bits_fits = omega arith;
  nonce_fits = omega arith;
}

replicate-IsBytes : (n b : ℕ) → b < 256 → IsBytes (replicate n b)
replicate-IsBytes zero b h = tt
replicate-IsBytes (suc n) b h = (h, replicate-IsBytes n b h)

hash_leq_target_iff_example :
    (hash_leq_target (replicate 32 3) (replicate 32 4) ≡ true)
    ↔ (from_be_bytes (replicate 32 3) ≤ from_be_bytes (replicate 32 4))
hash_leq_target_iff_example =
    hash_leq_target_iff (replicate 32 3) (replicate 32 4) (replicate-IsBytes 32 3 (omega arith))
      (replicate-IsBytes 32 4 (omega arith)) refl

u256_div_u64_be_lem_example :
    (from_be_bytes (u256_div_u64_be (replicate 32 200) 1000)
      ≡ from_be_bytes (replicate 32 200) / 1000)
    × (length (u256_div_u64_be (replicate 32 200) 1000) ≡ 32)
u256_div_u64_be_lem_example =
    u256_div_u64_be_lem (replicate 32 200) 1000 (replicate-IsBytes 32 200 (omega arith))
      (omega arith)
