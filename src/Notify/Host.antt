-- ===== src/Notify/Host.antt =====
-- src/notify.rs: where an accepted webhook can lead.
use csd_mining_pool_public.Prelude.{
  ℕ, ◌≡◌, ◌≢◌, sym, ap, ◌∙◌, inl, inr, true, false, none, some, [], ◌∷◌, ◌++◌, All, Text, codes,
  arith, Bool-cases, Option-cases, subst,
}
use csd_mining_pool_public.Prelude.Ascii.{
  strip_prefix, until, from_first, contains_char, to_lowercase, until-from_first, strip_prefix-some,
}
use csd_mining_pool_public.Prelude.Cuts.{StopsAt, from_first-StopsAt, until-All}
use csd_mining_pool_public.Prelude.Results.{ok}
use csd_mining_pool_public.Notify.{
  ends_authority, is_colon, is_allowed_host, validate_rest, validate_webhook_url,
}

contains_char-All : (d : ℕ) (s : Text) → contains_char d s ≡ false → All (λ c. c ≢ d) s
unfolding contains_char
contains_char-All d [] h = tt
contains_char-All d (c ∷ s) h = (λ e. ground arith, contains_char-All d s (ground arith))

-- The URL of a request, cut where a client cuts it.
pub record Parts (url : Text) : Type 0 where
  pub host : Text
  pub port : Text
  pub tail : Text
  pub whole : url ≡ codes "https://" ++ ((host ++ port) ++ tail)
  pub no_credentials : All (λ c. c ≢ b'@') (host ++ port)
  pub host_ends : All (λ c. is_colon c ≡ false) host
  pub port_starts : StopsAt is_colon port
  pub authority_ends : All (λ c. ends_authority c ≡ false) (host ++ port)
  pub tail_starts : StopsAt ends_authority tail
  pub allowed : is_allowed_host (to_lowercase host) ≡ true

authority-Parts :
    (url rest : Text)
    → strip_prefix (codes "https://") url ≡ some rest
    → validate_rest (some rest) ≡ ok tt
    → Parts url
unfolding validate_rest
authority-Parts url rest stripped h =
    let authority = until ends_authority rest in
    let host = until is_colon authority in
    let port = from_first is_colon authority in
    let cut : host ++ port ≡ authority = until-from_first is_colon authority in
    elim (Bool-cases (contains_char b'@' authority)) [
      | inl bad ↦ absurd (cc (rw bad at h))
      | inr clean ↦ elim (Bool-cases (is_allowed_host (to_lowercase host))) [
        | inr other ↦ absurd (cc (rw (clean, other) at h))
        | inl good ↦ record {
          host = host;
          port = port;
          tail = from_first ends_authority rest;
          whole =
              strip_prefix-some (codes "https://") url rest stripped
              ∙ ap (λ t. codes "https://" ++ t)
                  (sym (until-from_first ends_authority rest)
                    ∙ ap (λ t. t ++ from_first ends_authority rest) (sym cut));
          no_credentials =
              subst (All (λ c. c ≢ b'@')) (sym cut) (contains_char-All b'@' authority clean);
          host_ends = until-All is_colon authority;
          port_starts = from_first-StopsAt is_colon authority;
          authority_ends =
              subst (All (λ c. ends_authority c ≡ false)) (sym cut) (until-All ends_authority rest);
          tail_starts = from_first-StopsAt ends_authority rest;
          allowed = good;
        }
      ]
    ]

no_rest : validate_rest none ≢ ok tt
unfolding validate_rest
no_rest h = cc

-- An accepted webhook is `https://`, a host, a port or nothing, and a path, query or fragment or
-- nothing, with no credentials before the path; and the host, in lower case, is one of the allowed
-- ones.
pub validate_webhook_url-Parts : (url : Text) → validate_webhook_url url ≡ ok tt → Parts url
unfolding validate_webhook_url
validate_webhook_url-Parts url h = elim (Option-cases (strip_prefix (codes "https://") url)) [
  | inl plain ↦ absurd (no_rest (rw plain at h))
  | inr (rest, stripped) ↦ authority-Parts url rest stripped (rw stripped at h)
]
