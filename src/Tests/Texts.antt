-- ===== src/Tests/Texts.antt =====
-- The checks of names, versions, URLs and tokens, and the hashrate windows.
use csd_mining_pool_public.Prelude.{
  ◌≤◌, ◌≡◌, ◌↔◌, refl, ◌⊎◌, true, false, Option, none, some, List, [], ◌∷◌, ◌++◌, Text, codes,
  length, arith, ℕ, text_eq,
}
use csd_mining_pool_public.Prelude.Ascii.{
  until, from_first, strip_prefix, is_ascii_digit, trim, trim_start, is_whitespace, split, split_at,
  parse_unsigned, digits_value, to_lowercase, lower, contains_char, ends_with,
}
use csd_mining_pool_public.Prelude.Float.{F64, of_nat}
use csd_mining_pool_public.Prelude.Results.{ok}
use csd_mining_pool_public.Autotune.Cache.{
  CachedGeometry, replace_char, replace_pair, strip_suffix, escaped, quoted, and_strip_suffix,
  unquote, decimal_before, decimal, entry, to_toml_string, usable, complete, set_field, on_line,
  on_lines, parse_toml,
}
use csd_mining_pool_public.Autotune.Cache.Quotes.{unquote-quoted}
use csd_mining_pool_public.Cli.{
  or_self, is_lower_hex, all_chars, validate_address, resolve_rig_from, stratum_username,
}
use csd_mining_pool_public.Cli.Username.{is_dot, stratum_username_payout}
use csd_mining_pool_public.SelfUpdate.{
  version_of, three_parts, parse_version, is_newer, newer_than, should_update,
}
use csd_mining_pool_public.SelfUpdate.Order.{Updates-acyclic}
use csd_mining_pool_public.Notify.{is_allowed_host, validate_rest, validate_webhook_url}
use csd_mining_pool_public.Notify.Host.{Parts, validate_webhook_url-Parts}
use csd_mining_pool_public.Stats.{authorized, RateSample, windows}
use csd_mining_pool_public.Stats.Query.{TargetToken}
use csd_mining_pool_public.Stats.Header.{HeaderToken}
use csd_mining_pool_public.Stats.Token.{authorized_iff}
use csd_mining_pool_public.Stats.Windows.{record_all, windows-record_all}

abbrev payout : Text
payout = codes "00112233445566778899aabbccddeeff00112233"

valid : validate_address (codes "0x" ++ payout) ≡ ok payout
unfolding validate_address or_self is_lower_hex all_chars strip_prefix is_ascii_digit
valid = refl

abbrev rigs : List (Option Text)
rigs = none ∷ some (codes "..") ∷ some (codes " my rig.local") ∷ []

stratum_username_payout_example :
    (until is_dot (stratum_username payout (resolve_rig_from rigs)) ≡ payout)
    × (length (stratum_username payout (resolve_rig_from rigs)) ≤ 65)
stratum_username_payout_example = stratum_username_payout (codes "0x" ++ payout) payout rigs valid

minor_first : should_update (codes "1.9.0") (codes "1.10.0") ≡ true
unfolding should_update newer_than parse_version three_parts version_of is_newer or_self split
    split_at trim trim_start is_whitespace strip_prefix parse_unsigned digits_value is_ascii_digit
minor_first = refl

major_first : should_update (codes "1.10.0") (codes "v2.0.0") ≡ true
unfolding should_update newer_than parse_version three_parts version_of is_newer or_self split
    split_at trim trim_start is_whitespace strip_prefix parse_unsigned digits_value is_ascii_digit
major_first = refl

Updates-acyclic_example :
    (should_update (codes "v2.0.0") (codes "1.9.0") ≡ false)
    × (should_update (codes "v2.0.0") (codes "v2.0.0") ≡ false)
Updates-acyclic_example =
    Updates-acyclic (codes "1.9.0") (codes "1.10.0") (codes "v2.0.0" ∷ []) minor_first
      (major_first, tt)

abbrev webhook : Text
webhook = codes "https://PTB.Discord.com:443/api/webhooks/1/x"

webhook_allowed : validate_webhook_url webhook ≡ ok tt
unfolding validate_webhook_url validate_rest is_allowed_host strip_prefix until contains_char
    to_lowercase lower ends_with text_eq
webhook_allowed = refl

validate_webhook_url-Parts_example : Parts webhook
validate_webhook_url-Parts_example = validate_webhook_url-Parts webhook webhook_allowed

abbrev head : List Text
head = codes "Host: rig" ∷ codes "Authorization: Bearer secret" ∷ []

authorized_iff_example :
    (authorized (codes "/summary") head (some (codes "secret")) ≡ true)
    ↔ (TargetToken (codes "/summary") (codes "secret") ⊎ HeaderToken head (codes "secret"))
authorized_iff_example = authorized_iff (codes "/summary") head (codes "secret")

abbrev samples : List RateSample
samples = (1000, of_nat 5) ∷ (400_000, of_nat 6) ∷ (1_000_000, of_nat 7) ∷ []

abbrev first : F64 → F64 → F64
first a b = a

abbrev undivided : F64 → ℕ → F64
undivided a n = a

windows-record_all_example :
    windows first undivided (record_all samples []) 1_000_500
    ≡ windows first undivided samples 1_000_500
windows-record_all_example =
    windows-record_all first undivided samples 1_000_500
      (omega arith, (omega arith, (omega arith, tt)))

abbrev weird : Text
weird = codes "weird \"GPU\" \\ name\\\\"

unquote-quoted_example : unquote (quoted weird) ≡ weird
unquote-quoted_example = unquote-quoted weird

abbrev cached : CachedGeometry
cached = record {
  device_index = 1;
  device_name = weird;
  blocks = 560;
  threads_per_block = 256;
  nonces_per_thread = 4096;
  mh_s = of_nat 7;
}

abbrev one_digit : F64 → Text
one_digit x = codes "7"

abbrev of_digit : Text → Option F64
of_digit s = some (of_nat 7)

cache_read_back : parse_toml of_digit (to_toml_string one_digit cached) ≡ some cached
unfolding parse_toml to_toml_string on_lines on_line set_field complete usable entry quoted escaped
    unquote and_strip_suffix strip_suffix replace_pair replace_char decimal decimal_before trim
    trim_start is_whitespace until from_first split split_at strip_prefix or_self parse_unsigned
    digits_value is_ascii_digit text_eq
cache_read_back = refl
