-- ===== src/Cli/Config.antt =====
-- src/config_file.rs, `merge_config` of src/main.rs and `parse_gpu_ids` of src/hiveos.rs: the
-- configuration file under the command line, and the list of devices. The file's fields are what
-- the crate toml makes of it, and `explicit` is clap's record of the flags that were given.
use csd_mining_pool_public.Prelude.{
  ℕ, ◌^◌, Bool, true, false, Option, none, some, List, [], ◌∷◌, Text, ◌==◌,
}
use csd_mining_pool_public.Prelude.Ascii.{trim, split, parse_unsigned}
use csd_mining_pool_public.Prelude.Float.{F64}
use csd_mining_pool_public.Prelude.Results.{Result, ok, ◌>>=◌, ok_or}
use csd_mining_pool_public.Cli.{Cli, BackendChoice, parse_backend}

pub record FileConfig : Type 0 where
  pub address : Option Text
  pub worker : Option Text
  pub backend : Option Text
  pub threads : Option ℕ
  pub reserve : Option ℕ
  pub blocks : Option ℕ
  pub threads_per_block : Option ℕ
  pub nonces_per_thread : Option ℕ
  pub cpu_threads : Option ℕ
  pub cpu_share : Option F64
  pub device : Option ℕ

-- The flags that the user gave, for the fields that have a default.
pub record Explicit : Type 0 where
  pub backend : Bool
  pub threads : Bool
  pub reserve : Bool
  pub blocks : Bool
  pub threads_per_block : Bool
  pub nonces_per_thread : Bool
  pub cpu_threads : Bool
  pub cpu_share : Bool
  pub device : Bool

-- `if x.is_none() { x = y; }`.
unfoldable pub or_file : Option Text → Option Text → Option Text
or_file none file = file
or_file (some x) file = some x

-- `if !explicit { if let Some(v) = file { x = v; } }`.
unfoldable pub merged {ℓ} : {A : Type ℓ} → Bool → Option A → A → A
merged true file x = x
merged false none x = x
merged false (some v) x = v

-- The same for `threads`, which is an option itself.
unfoldable pub merged_threads : Bool → Option ℕ → Option ℕ → Option ℕ
merged_threads true file x = x
merged_threads false none x = x
merged_threads false (some v) x = some v

-- The backend's name in the file, if it is known.
unfoldable pub file_backend : Option Text → Option BackendChoice
file_backend none = none
file_backend (some s) = parse_backend s

unfoldable pub merge_config : Cli → Explicit → FileConfig → Cli
unfolding or_file merged merged_threads file_backend parse_backend
merge_config cli explicit file = record cli {
  address = or_file cli.address file.address;
  worker = or_file cli.worker file.worker;
  backend = merged explicit.backend (file_backend file.backend) cli.backend;
  threads = merged_threads explicit.threads file.threads cli.threads;
  reserve = merged explicit.reserve file.reserve cli.reserve;
  blocks = merged explicit.blocks file.blocks cli.blocks;
  threads_per_block =
      merged explicit.threads_per_block file.threads_per_block cli.threads_per_block;
  nonces_per_thread =
      merged explicit.nonces_per_thread file.nonces_per_thread cli.nonces_per_thread;
  cpu_threads = merged explicit.cpu_threads file.cpu_threads cli.cpu_threads;
  cpu_share = merged explicit.cpu_share file.cpu_share cli.cpu_share;
  device = merged explicit.device file.device cli.device;
}

-- The entry that is no number, without its white space.
pub data GpuIdError : Type 0 where
  invalid_entry : Text → GpuIdError

unfoldable pub gpu_id_entries : List Text → Result GpuIdError (List ℕ)
unfolding trim parse_unsigned
gpu_id_entries [] = ok []
gpu_id_entries (part ∷ parts) = do
  id ← ok_or (parse_unsigned (2 ^ 64) (trim part)) (invalid_entry (trim part))
  rest ← gpu_id_entries parts
  ok (id ∷ rest)

unfoldable pub gpu_ids_of : Text → Result GpuIdError (List ℕ)
unfolding gpu_id_entries split
gpu_ids_of [] = ok []
gpu_ids_of (c ∷ s) = gpu_id_entries (split (λ d. d == b',') (c ∷ s))

unfoldable pub parse_gpu_ids : Text → Result GpuIdError (List ℕ)
unfolding gpu_ids_of trim
parse_gpu_ids s = gpu_ids_of (trim s)
