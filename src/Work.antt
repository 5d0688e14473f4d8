-- ===== src/Work.antt =====
-- src/consensus_types.rs and src/coinbase.rs: the work template, the coinbase around the
-- extranonce, the merkle root of a branch, and the 84 bytes of a header. Fixed-size byte arrays
-- are lists, with their length as a hypothesis where it matters.
pub mod Header
use csd_mining_pool_public.Prelude.{ℕ, ◌+◌, ◌/◌, ◌%◌, List, [], ◌∷◌, ◌++◌, map, ◌==◌, if◌then◌else◌}
use csd_mining_pool_public.Prelude.Bytes.{to_le_bytes}
use csd_mining_pool_public.Sha.{Sha2, sha256d}

-- `HexHash32` is a wrapper for the JSON form; it stands for its 32 bytes.
pub record WorkTemplate : Type 0 where
  pub id : ℕ
  pub version : ℕ
  pub prev : List ℕ
  pub time : ℕ
  pub bits : ℕ
  pub target : List ℕ
  pub coinbase_prefix : List ℕ
  pub extranonce_size : ℕ
  pub coinbase_suffix : List ℕ
  pub merkle_branch : List (List ℕ)
  pub nonce_start : ℕ
  pub nonce_end : ℕ
  pub height : ℕ

unfoldable pub build_coinbase_bytes : List ℕ → ℕ → List ℕ → List ℕ
build_coinbase_bytes prefix extranonce suffix = prefix ++ (to_le_bytes 8 extranonce ++ suffix)

unfoldable pub coinbase_txid : Sha2 → List ℕ → ℕ → List ℕ → List ℕ
unfolding build_coinbase_bytes
coinbase_txid sha2 prefix extranonce suffix =
    sha256d sha2 (build_coinbase_bytes prefix extranonce suffix)

-- The loop over the siblings, with the current index.
unfoldable pub merkle_root_from_branch : Sha2 → List ℕ → List (List ℕ) → ℕ → List ℕ
merkle_root_from_branch sha2 leaf [] leaf_index = leaf
merkle_root_from_branch sha2 leaf (sib ∷ branch) leaf_index =
    merkle_root_from_branch sha2
      (sha256d sha2 (if leaf_index % 2 == 0 then leaf ++ sib else sib ++ leaf)) branch
      (leaf_index / 2)

unfoldable pub header_84 : ℕ → List ℕ → List ℕ → ℕ → ℕ → ℕ → List ℕ
header_84 version prev merkle time bits nonce =
    to_le_bytes 4 version
    ++ (prev ++ (merkle ++ (to_le_bytes 8 time ++ (to_le_bytes 4 bits ++ to_le_bytes 4 nonce))))

unfoldable pub work_template_encode : WorkTemplate → List ℕ → ℕ → List ℕ
work_template_encode template merkle_root nonce =
    to_le_bytes 4 template.version
    ++ (template.prev
        ++ (merkle_root
            ++ (to_le_bytes 8 template.time
                ++ (to_le_bytes 4 template.bits ++ to_le_bytes 4 nonce))))
