-- ===== src/Launch/Bridge.antt =====
-- The header that the pool's bridge rebuilds from the raw notify, written out as the reference of
-- src/stratum/mapping.rs, and the miner's header for the same extranonces and nonce.
use csd_mining_pool_public.Prelude.{
  ℕ, append_assoc, ◌/◌, ◌≡◌, sym, ap, ◌∙◌, Option, none, some, List, [], ◌∷◌, ◌++◌, reverse, length,
  length-reverse, Text,
}
use csd_mining_pool_public.Prelude.Bytes.{IsBytes, to_le_bytes, from_le_bytes}
use csd_mining_pool_public.Prelude.Results.{ok, bind_ok, ok_inj}
use csd_mining_pool_public.Sha.{Sha2, sha256d}
use csd_mining_pool_public.Sha.Finish.{length-sha256d}
use csd_mining_pool_public.Protocol.{NotifyParams}
use csd_mining_pool_public.Work.{
  WorkTemplate, build_coinbase_bytes, coinbase_txid, merkle_root_from_branch, header_84,
}
use csd_mining_pool_public.Work.Header.{header_84_overwrite}
use csd_mining_pool_public.Mapping.{
  Hex, MappedJob, parse_hex_u32, decode_hash32, decode_branch, compose_extranonce,
  notify_to_template,
}
use csd_mining_pool_public.Mapping.Extranonce.{to_le_bytes-compose_extranonce}
use csd_mining_pool_public.Launch.{launch_header, with_nonce}
use csd_mining_pool_public.Launch.Mapped.{Mapped, job_of, decode_hash32_ok, notify_to_template_ok}

infixl 5 ◌>>=◌
abbrev ◌>>=◌ : {A : Type 0} {B : Type 0} → Option A → (A → Option B) → Option B
none >>= f = none
some a >>= f = f a

-- `merkle = sha256d(merkle ‖ sib)` over the branch.
unfoldable pub bridge_fold : Sha2 → Hex → List Text → List ℕ → Option (List ℕ)
bridge_fold sha2 hex [] merkle = some merkle
bridge_fold sha2 hex (h ∷ hs) merkle = do
  sib ← hex.decode h
  bridge_fold sha2 hex hs (sha256d sha2 (merkle ++ sib))

-- `none` where the reference unwraps a failed parse.
unfoldable pub bridge_golden_header : Sha2 → Hex → NotifyParams → List ℕ → ℕ → ℕ → Option (List ℕ)
unfolding bridge_fold sha256d
bridge_golden_header sha2 hex n xn1 xn2 nonce = do
  coinb1 ← hex.decode n.coinb1_hex
  coinb2 ← hex.decode n.coinb2_hex
  merkle ←
      bridge_fold sha2 hex n.merkle_branches_hex
        (sha256d sha2 (coinb1 ++ (xn1 ++ (to_le_bytes 4 xn2 ++ coinb2))))
  prev ← hex.decode n.prev_hash_be_hex
  version ← parse_hex_u32 n.version_hex
  bits ← parse_hex_u32 n.nbits_hex
  time ← parse_hex_u32 n.ntime_hex
  some (
      to_le_bytes 4 version
      ++ (reverse prev
          ++ (merkle ++ (to_le_bytes 8 time ++ (to_le_bytes 4 bits ++ to_le_bytes 4 nonce)))))

-- At leaf index 0 the sibling stands on the right at every level, as the bridge has it.
bridge_fold-decode_branch :
    (sha2 : Sha2) (hex : Hex) (hs : List Text) (branch : List (List ℕ)) (leaf : List ℕ)
    → decode_branch hex hs ≡ ok branch
    → bridge_fold sha2 hex hs leaf ≡ some (merkle_root_from_branch sha2 leaf branch 0)
unfolding bridge_fold decode_branch merkle_root_from_branch
bridge_fold-decode_branch sha2 hex [] branch leaf h =
    ap (λ b. some (merkle_root_from_branch sha2 leaf b 0)) (ok_inj h)
bridge_fold-decode_branch sha2 hex (s ∷ hs) branch leaf h =
    let (sib, sib_ok, h) = bind_ok (decode_hash32 hex s) h in
    let (rest, rest_ok, h) = bind_ok (decode_branch hex hs) h in
    rw (decode_hash32_ok hex s sib sib_ok).0 (
      bridge_fold-decode_branch sha2 hex hs rest (sha256d sha2 (leaf ++ sib)) rest_ok
      ∙ ap (λ b. some (merkle_root_from_branch sha2 leaf b 0)) (ok_inj h))

length-merkle_root_from_branch :
    (sha2 : Sha2) (branch : List (List ℕ)) (leaf : List ℕ) (i : ℕ)
    → length leaf ≡ 32
    → length (merkle_root_from_branch sha2 leaf branch i) ≡ 32
unfolding merkle_root_from_branch
length-merkle_root_from_branch sha2 [] leaf i h = h
length-merkle_root_from_branch sha2 (sib ∷ branch) leaf i h =
    length-merkle_root_from_branch sha2 branch _ (i / 2) (length-sha256d sha2 _)

-- The coinbase around the composed extranonce is the one that the bridge puts together.
coinbase_txid-compose_extranonce :
    (sha2 : Sha2) (prefix suffix xn1 : List ℕ) (xn2 : ℕ)
    → IsBytes xn1
    → length xn1 ≡ 4
    → coinbase_txid sha2 prefix (compose_extranonce (from_le_bytes xn1) xn2) suffix
      ≡ sha256d sha2 (prefix ++ (xn1 ++ (to_le_bytes 4 xn2 ++ suffix)))
unfolding coinbase_txid build_coinbase_bytes
coinbase_txid-compose_extranonce sha2 prefix suffix xn1 xn2 bytes four =
    ap (λ t. sha256d sha2 (prefix ++ t))
      (ap (λ t. t ++ suffix) (to_le_bytes-compose_extranonce xn1 xn2 bytes four)
        ∙ append_assoc xn1 (to_le_bytes 4 xn2) suffix)

-- The launch header with a nonce written over it, for a job that is put together from its parts.
with_nonce-launch_header :
    (sha2 : Sha2) (t : WorkTemplate) (xn1 : List ℕ) (xn2 nonce : ℕ)
    → IsBytes xn1
    → length xn1 ≡ 4
    → length t.prev ≡ 32
    → with_nonce (launch_header sha2 t (from_le_bytes xn1) xn2) nonce
      ≡ header_84 t.version t.prev
          (merkle_root_from_branch sha2
            (sha256d sha2 (t.coinbase_prefix ++ (xn1 ++ (to_le_bytes 4 xn2 ++ t.coinbase_suffix))))
            t.merkle_branch
            0)
          t.time
          t.bits
          nonce
unfolding with_nonce launch_header
with_nonce-launch_header sha2 t xn1 xn2 nonce bytes four long =
    header_84_overwrite t.version t.prev _ t.time t.bits 0 nonce long
      (length-merkle_root_from_branch sha2 t.merkle_branch _ 0 (length-sha256d sha2 _))
    ∙ ap
        (λ cb.
          header_84 t.version t.prev (merkle_root_from_branch sha2 cb t.merkle_branch 0) t.time
            t.bits nonce)
        (coinbase_txid-compose_extranonce sha2 t.coinbase_prefix t.coinbase_suffix xn1 xn2 bytes
          four)

golden_of :
    (sha2 : Sha2) (hex : Hex) (n : NotifyParams) (xn1 target : List ℕ) (job : MappedJob)
    (xn2 nonce : ℕ)
    → (m : Mapped hex n xn1 target job)
    → bridge_golden_header sha2 hex n xn1 xn2 nonce
      ≡ some (
          header_84 m.version
            (reverse m.prev)
            (merkle_root_from_branch sha2
              (sha256d sha2 (m.prefix ++ (xn1 ++ (to_le_bytes 4 xn2 ++ m.suffix))))
              m.branch
              0)
            m.time
            m.bits
            nonce)
unfolding bridge_golden_header header_84
golden_of sha2 hex n xn1 target job xn2 nonce m = rw (
  m.prefix_is,
  m.suffix_is,
  bridge_fold-decode_branch sha2 hex n.merkle_branches_hex m.branch
      (sha256d sha2 (m.prefix ++ (xn1 ++ (to_le_bytes 4 xn2 ++ m.suffix)))) m.branch_is,
  m.prev_is,
  m.version_is,
  m.bits_is,
  m.time_is,
)

-- For every notify that maps, with an extranonce1 of bytes, and every extranonce2 and nonce, the
-- miner's header is byte for byte the one that the bridge rebuilds from the raw notify.
pub bridge_golden_header-notify_to_template :
    (sha2 : Sha2) (hex : Hex) (n : NotifyParams) (xn1 target : List ℕ) (job : MappedJob)
    (xn2 nonce : ℕ)
    → IsBytes xn1
    → notify_to_template hex n xn1 target ≡ ok job
    → bridge_golden_header sha2 hex n xn1 xn2 nonce
      ≡ some (with_nonce (launch_header sha2 job.template job.xn1_low xn2) nonce)
bridge_golden_header-notify_to_template sha2 hex n xn1 target job xn2 nonce bytes h =
    let m = notify_to_template_ok hex n xn1 target job h in
    let parts = job_of n target m.version m.bits m.time m.prev m.prefix m.suffix m.branch xn1 in
    golden_of sha2 hex n xn1 target job xn2 nonce m
    ∙ ap some (
        sym (
          with_nonce-launch_header sha2 parts.template xn1 xn2 nonce bytes m.xn1_length
            (length-reverse m.prev ∙ m.prev_length)))
    ∙ ap (λ (j : MappedJob). some (with_nonce (launch_header sha2 j.template j.xn1_low xn2) nonce))
        m.job_is
