-- ===== src/Notify.antt =====
-- src/notify.rs: the check of a webhook's URL. Text is ASCII.
pub mod Host
use csd_mining_pool_public.Prelude.{
  ℕ, Bool, true, false, ◌&&◌, ◌||◌, Option, none, some, Text, codes, text_eq, ◌==◌, if◌then◌else◌,
}
use csd_mining_pool_public.Prelude.Ascii.{
  strip_prefix, until, contains_char, to_lowercase, ends_with,
}
use csd_mining_pool_public.Prelude.Results.{Result, ok, err}

pub data WebhookError : Type 0 where
  not_https : WebhookError
  has_credentials : Text → WebhookError
  not_discord : Text → WebhookError

-- `/`, `?` and `#`.
abbrev pub ends_authority : ℕ → Bool
ends_authority c = c == b'/' || (c == b'?' || c == b'#')

abbrev pub is_colon : ℕ → Bool
is_colon c = c == b':'

unfoldable pub is_allowed_host : Text → Bool
unfolding ends_with
is_allowed_host host =
    text_eq host (codes "discord.com")
    || (text_eq host (codes "discordapp.com")
        || (text_eq host (codes "canary.discord.com") || ends_with (codes ".discord.com") host))

-- After `https://`.
unfoldable pub validate_rest : Option Text → Result WebhookError (Unit {0})
unfolding until contains_char to_lowercase is_allowed_host
validate_rest none = err not_https
validate_rest (some rest) =
    let authority = until ends_authority rest in
    let host = to_lowercase (until is_colon authority) in
    if contains_char b'@' authority
    then err (has_credentials authority)
    else if is_allowed_host host
    then ok tt
    else err (not_discord host)

unfoldable pub validate_webhook_url : Text → Result WebhookError (Unit {0})
unfolding validate_rest strip_prefix
validate_webhook_url url = validate_rest (strip_prefix (codes "https://") url)
