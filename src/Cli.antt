-- ===== src/Cli.antt =====
-- src/main.rs, src/mining_config.rs, src/winsvc.rs and src/hiveos.rs: the decisions about the
-- command line. Text is ASCII, an `f32` is its value as an `f64`, `explicit` says which flags the
-- user gave, and the environment's variables and the number of cores are arguments.
pub mod Config
pub mod Username
use csd_mining_pool_public.Prelude.{
  ℕ, suc, ◌-◌, min, max, Bool, true, false, not, ◌&&◌, ◌||◌, Option, none, some, List, [], ◌∷◌,
  ◌++◌, Text, codes, text_eq, length, take, ltb, leb, ◌==◌, if◌then◌else◌, from_secs,
}
use csd_mining_pool_public.Prelude.Ascii.{
  trim, strip_prefix, until, to_lowercase, is_ascii_digit, split, parse_unsigned,
}
use csd_mining_pool_public.Prelude.Float.{F64, is_finite, flt, fle, of_nat}
use csd_mining_pool_public.Prelude.Results.{Result, ok, err}
use csd_mining_pool_public.GpuWatchdog.{GpuWatchdogCfg, default_cfg}

pub data BackendChoice : Type 0 where
  auto : BackendChoice
  cpu : BackendChoice
  opencl : BackendChoice
  cuda : BackendChoice

pub data AddressError : Type 0 where
  wrong_length : ℕ → AddressError
  not_lowercase_hex : AddressError

unfoldable pub or_self : Option Text → Text → Text
or_self none s = s
or_self (some t) s = t

unfoldable pub is_lower_hex : ℕ → Bool
is_lower_hex b = is_ascii_digit b || leb b'a' b && leb b b'f'

unfoldable pub all_chars : (ℕ → Bool) → Text → Bool
all_chars p [] = true
all_chars p (c ∷ s) = p c && all_chars p s

unfoldable pub validate_address : Text → Result AddressError Text
unfolding or_self is_lower_hex all_chars strip_prefix is_ascii_digit
validate_address addr =
    let body = or_self (strip_prefix (codes "0x") addr) addr in
    if not (length body == 40)
    then err (wrong_length (length addr))
    else if not (all_chars is_lower_hex body)
    then err not_lowercase_hex
    else ok body

abbrev pub rig_name_max : ℕ
rig_name_max = 24

unfoldable pub is_rig_char : ℕ → Bool
is_rig_char c =
    is_ascii_digit c
    || leb b'a' c && leb c b'z'
    || leb b'A' c && leb c b'Z'
    || c == b'_'
    || c == b'-'

unfoldable pub filter_chars : (ℕ → Bool) → Text → Text
filter_chars p [] = []
filter_chars p (c ∷ s) = if p c then c ∷ filter_chars p s else filter_chars p s

unfoldable pub non_empty : Text → Option Text
non_empty [] = none
non_empty (c ∷ s) = some (c ∷ s)

-- The first piece of the split at `.` is the text before the first one.
unfoldable pub sanitize_rig : Text → Option Text
unfolding trim until is_rig_char filter_chars non_empty is_ascii_digit
sanitize_rig raw =
    non_empty (take rig_name_max (filter_chars is_rig_char (until (λ c. c == b'.') (trim raw))))

unfoldable pub sanitized : Option Text → Option Text
unfolding sanitize_rig
sanitized none = none
sanitized (some raw) = sanitize_rig raw

unfoldable pub resolve_rig_from : List (Option Text) → Option Text
unfolding sanitized
resolve_rig_from [] = none
resolve_rig_from (c ∷ candidates) = elim (sanitized c) [
  | some rig ↦ some rig
  | none ↦ resolve_rig_from candidates
]

unfoldable pub stratum_username : Text → Option Text → Text
stratum_username address (some r) = address ++ (b'.' ∷ r)
stratum_username address none = address

unfoldable pub geometry_after_failed_sweep : Option (ℕ × ℕ × ℕ) → ℕ × ℕ × ℕ → ℕ × ℕ × ℕ
geometry_after_failed_sweep none default = default
geometry_after_failed_sweep (some cached) default = cached

unfoldable pub default_backend : Bool → Bool → Text
default_backend cuda_compiled opencl_compiled =
    if cuda_compiled then codes "cuda" else if opencl_compiled then codes "opencl" else codes "cpu"

unfoldable pub parse_backend : Text → Option BackendChoice
unfolding trim to_lowercase
parse_backend s =
    let name = to_lowercase (trim s) in
    if text_eq name (codes "auto")
    then some auto
    else if text_eq name (codes "cpu")
    then some cpu
    else if text_eq name (codes "opencl")
    then some opencl
    else if text_eq name (codes "cuda")
    then some cuda
    else none

-- A kill switch of the environment: `Some("1") | Some("true") | Some("TRUE") | Some("yes")`.
unfoldable pub is_set : Option Text → Bool
is_set none = false
is_set (some v) =
    text_eq v (codes "1")
    || text_eq v (codes "true")
    || text_eq v (codes "TRUE")
    || text_eq v (codes "yes")

unfoldable pub worker_suffix_enabled : Bool → Option Text → Bool
unfolding is_set
worker_suffix_enabled no_worker env = if no_worker then false else not (is_set env)

unfoldable pub suggest_diff_enabled : Bool → Option Text → Bool
unfolding is_set
suggest_diff_enabled no_suggest_diff env = if no_suggest_diff then false else not (is_set env)

-- The fields of `Cli` that the functions below read.
pub record Cli : Type 0 where
  pub address : Option Text
  pub worker : Option Text
  pub backend : BackendChoice
  pub threads : Option ℕ
  pub reserve : ℕ
  pub blocks : ℕ
  pub threads_per_block : ℕ
  pub nonces_per_thread : ℕ
  pub cpu_threads : ℕ
  pub cpu_share : F64
  pub device : ℕ
  pub auto_tune : Bool
  pub no_auto_tune : Bool
  pub geometry_set_explicitly : Bool
  pub no_gpu_watchdog : Bool
  pub gpu_floor : F64
  pub gpu_watchdog_dwell : ℕ
  pub gpu_watchdog_recover_secs : ℕ
  pub gpu_watchdog_max_recoveries : ℕ

unfoldable pub should_auto_tune : Cli → Bool
should_auto_tune cli = cli.auto_tune && (not cli.no_auto_tune && not cli.geometry_set_explicitly)

unfoldable pub threads_by : Option ℕ → ℕ → ℕ → ℕ
threads_by (some t) reserve avail = max t 1
threads_by none reserve avail = max (avail - reserve) 1

unfoldable pub cpu_hashing_threads : Cli → ℕ → ℕ
unfolding threads_by
cpu_hashing_threads cli avail = threads_by cli.threads cli.reserve avail

pub record MiningConfig : Type 0 where
  pub cpu_threads : ℕ
  pub cpu_share : F64

-- `f32::clamp(0.0, 1.0)`, which keeps NaN.
unfoldable pub clamp_share : F64 → F64
clamp_share x = if flt x (of_nat 0) then of_nat 0 else if flt (of_nat 1) x then of_nat 1 else x

unfoldable pub build_mining_config : Cli → Bool → ℕ → MiningConfig
unfolding clamp_share
build_mining_config cli backend_is_cpu max_threads =
    if backend_is_cpu then record { cpu_threads = 0; cpu_share = of_nat 0 } else record {
      cpu_threads = min cli.cpu_threads max_threads;
      cpu_share = clamp_share cli.cpu_share;
    }

unfoldable pub build_gpu_watchdog_cfg : Cli → Bool → GpuWatchdogCfg
build_gpu_watchdog_cfg cli enabled = record {
  enabled = enabled && not cli.no_gpu_watchdog;
  floor_ghs = cli.gpu_floor;
  dwell_samples = cli.gpu_watchdog_dwell;
  recover_window = from_secs cli.gpu_watchdog_recover_secs;
  max_recoveries = cli.gpu_watchdog_max_recoveries;
  poll = default_cfg.poll;
}

-- The errors of `validate_mining_config`, one for each message.
pub data ConfigError : Type 0 where
  bad_share : ConfigError
  no_threads : ConfigError
  no_blocks : ConfigError
  no_threads_per_block : ConfigError
  no_nonces_per_thread : ConfigError

unfoldable pub is_zero : Option ℕ → Bool
is_zero none = false
is_zero (some n) = n == 0

unfoldable pub validate_mining_config : F64 → Option ℕ → ℕ → ℕ → ℕ → Result ConfigError (Unit {0})
unfolding is_zero
validate_mining_config cpu_share threads blocks threads_per_block nonces_per_thread =
    if not (is_finite cpu_share) || not (fle (of_nat 0) cpu_share && fle cpu_share (of_nat 1))
    then err bad_share
    else if is_zero threads
    then err no_threads
    else if blocks == 0
    then err no_blocks
    else if threads_per_block == 0
    then err no_threads_per_block
    else if nonces_per_thread == 0
    then err no_nonces_per_thread
    else ok tt

pub data ServiceMode : Type 0 where
  install : ServiceMode
  uninstall : ServiceMode
  run : ServiceMode

pub data ServiceError : Type 0 where
  mutually_exclusive : ServiceError

unfoldable pub parse_service_mode : Bool → Bool → Bool → Result ServiceError (Option ServiceMode)
parse_service_mode false false false = ok none
parse_service_mode true false false = ok (some install)
parse_service_mode false true false = ok (some uninstall)
parse_service_mode false false true = ok (some run)
parse_service_mode _ _ _ = err mutually_exclusive
