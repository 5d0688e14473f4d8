-- ===== src/SelfUpdate.antt =====
-- src/selfupdate.rs: versions, the decision to update, and the digest of a download. Text is ASCII;
-- the crates sha2 and hex are the parameters of the models of their callers.
pub mod Order
use csd_mining_pool_public.Prelude.{
  ℕ, ◌^◌, Bool, true, false, ◌&&◌, ◌||◌, Option, none, some, List, [], ◌∷◌, Text, codes, text_eq,
  ltb, ◌==◌, if◌then◌else◌,
}
use csd_mining_pool_public.Prelude.Ascii.{
  trim, strip_prefix, split, parse_unsigned, to_lowercase, is_whitespace,
}
use csd_mining_pool_public.Sha.{Sha2}
use csd_mining_pool_public.Mapping.{Hex}
use csd_mining_pool_public.Cli.{or_self}

pub record Version : Type 0 where
  pub major : ℕ
  pub minor : ℕ
  pub patch : ℕ

unfoldable pub version_of : Option ℕ → Option ℕ → Option ℕ → Option Version
version_of (some major) (some minor) (some patch) =
    some (record { major = major; minor = minor; patch = patch })
version_of _ _ _ = none

-- Exactly three components, each a `u64`.
unfoldable pub three_parts : List Text → Option Version
unfolding version_of parse_unsigned
three_parts (a ∷ b ∷ c ∷ []) =
    version_of (parse_unsigned (2 ^ 64) a) (parse_unsigned (2 ^ 64) b) (parse_unsigned (2 ^ 64) c)
three_parts _ = none

unfoldable pub parse_version : Text → Option Version
unfolding three_parts split trim strip_prefix or_self
parse_version v =
    let t = trim v in three_parts (split (λ c. c == b'.') (or_self (strip_prefix (codes "v") t) t))

-- `l > c` on the tuples.
unfoldable pub is_newer : Version → Version → Bool
is_newer l c =
    if ltb c.major l.major
    then true
    else if ltb l.major c.major
    then false
    else if ltb c.minor l.minor
    then true
    else if ltb l.minor c.minor
    then false
    else ltb c.patch l.patch

unfoldable pub newer_than : Option Version → Option Version → Bool
unfolding is_newer
newer_than current none = false
newer_than none (some latest) = true
newer_than (some current) (some latest) = is_newer latest current

unfoldable pub should_update : Text → Text → Bool
unfolding newer_than parse_version
should_update current latest = newer_than (parse_version current) (parse_version latest)

unfoldable pub verify_sha256 : Sha2 → Hex → List ℕ → Text → Bool
unfolding to_lowercase trim
verify_sha256 sha2 hex bytes expected_hex =
    text_eq (to_lowercase (hex.encode (sha2.digest bytes))) (to_lowercase (trim expected_hex))
