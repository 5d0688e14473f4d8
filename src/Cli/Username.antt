-- ===== src/Cli/Username.antt =====
-- src/main.rs: the payout address in the name that the pool sees.
use csd_mining_pool_public.Prelude.{
  ℕ, ◌≤◌, ◌≡◌, refl, sym, ap, ◌∙◌, inl, inr, Bool, true, false, not, ◌&&◌, Option, none, some, List,
  [], ◌∷◌, ◌++◌, Text, length, take, length-append, length-take, arith, ◌==◌, if◌then◌else◌,
  Option-cases, Bool-cases, append-nil, codes,
}
use csd_mining_pool_public.Prelude.Ascii.{trim, until, strip_prefix, is_ascii_digit}
use csd_mining_pool_public.Prelude.Results.{ok, err}
use csd_mining_pool_public.Cli.{
  wrong_length, not_lowercase_hex, or_self, is_lower_hex, all_chars, validate_address, rig_name_max,
  is_rig_char, filter_chars, non_empty, sanitize_rig, sanitized, resolve_rig_from, stratum_username,
}

abbrev pub is_dot : ℕ → Bool
is_dot c = c == b'.'

hex_no_dot : (c : ℕ) → is_lower_hex c ≡ true → is_dot c ≡ false
unfolding is_lower_hex is_ascii_digit
hex_no_dot c h = ground arith

both_true : (a b : Bool) → (a && b) ≡ true → (a ≡ true) × (b ≡ true)
both_true a b h = ground arith

-- Text without a dot is what stands before the first dot after it.
until-append :
    (s t : Text) → all_chars is_lower_hex s ≡ true → until is_dot t ≡ [] → until is_dot (s ++ t) ≡ s
unfolding all_chars until
until-append [] t h stop = stop
until-append (c ∷ s) t h stop =
    let (is_hex, rest) = both_true (is_lower_hex c) (all_chars is_lower_hex s) h in
    rw (hex_no_dot c is_hex) (ap (◌∷◌ c) (until-append s t rest stop))

validated :
    (body : Text) (n : ℕ) (a : Text)
    → (if not (length body == 40)
        then err (wrong_length n)
        else if not (all_chars is_lower_hex body)
        then err not_lowercase_hex
        else ok body)
      ≡ ok a
    → (length a ≡ 40) × (all_chars is_lower_hex a ≡ true)
validated body n a h = elim (Bool-cases (length body == 40)) [
  | inr long ↦ absurd (cc (rw long at h))
  | inl long ↦ elim (Bool-cases (all_chars is_lower_hex body)) [
    | inr bad ↦ absurd (cc (rw (long, bad) at h))
    | inl good ↦
        let e : body ≡ a = cc (rw (long, good) at h) in
        (ap length (sym e) ∙ ground arith, ap (all_chars is_lower_hex) (sym e) ∙ good)
  ]
]

-- A valid address has 40 lowercase hexadecimal digits.
pub validate_address_ok :
    (addr a : Text)
    → validate_address addr ≡ ok a
    → (length a ≡ 40) × (all_chars is_lower_hex a ≡ true)
unfolding validate_address
validate_address_ok addr a h =
    validated (or_self (strip_prefix (codes "0x") addr) addr) (length addr) a h

non_empty-some : (s r : Text) → non_empty s ≡ some r → s ≡ r
unfolding non_empty
non_empty-some [] r h = absurd cc
non_empty-some (c ∷ s) r h = cc

sanitized_short : (c : Option Text) (r : Text) → sanitized c ≡ some r → length r ≤ 24
unfolding sanitized sanitize_rig
sanitized_short none r h = absurd cc
sanitized_short (some raw) r h =
    let cleaned = filter_chars is_rig_char (until is_dot (trim raw)) in
    let e = non_empty-some (take rig_name_max cleaned) r h in
    omega (arith, ap length e, length-take rig_name_max cleaned)

resolved_short :
    (candidates : List (Option Text)) (r : Text)
    → resolve_rig_from candidates ≡ some r
    → length r ≤ 24
unfolding resolve_rig_from
resolved_short [] r h = absurd cc
resolved_short (c ∷ candidates) r h = elim (Option-cases (sanitized c)) [
  | inl bad ↦ resolved_short candidates r (ground arith)
  | inr (s, good) ↦ sanitized_short c r (ground arith)
]

username_by :
    (a : Text) (rig : Option Text)
    → length a ≡ 40
    → all_chars is_lower_hex a ≡ true
    → ((r : Text) → rig ≡ some r → length r ≤ 24)
    → (until is_dot (stratum_username a rig) ≡ a) × (length (stratum_username a rig) ≤ 65)
unfolding stratum_username
username_by a none long hex short = (
  ap (until is_dot) (sym (append-nil a)) ∙ until-append a [] hex (unfold until in refl),
  omega arith,
)
username_by a (some r) long hex short = (
  until-append a (b'.' ∷ r) hex (unfold until in refl),
  omega (arith, length-append a (b'.' ∷ r), short r refl),
)

-- Whatever the sources of the rig's name hold, the name that the pool sees has the validated
-- payout address before its first dot, byte for byte, and 65 characters at most.
pub stratum_username_payout :
    (addr a : Text) (candidates : List (Option Text))
    → validate_address addr ≡ ok a
    → (until is_dot (stratum_username a (resolve_rig_from candidates)) ≡ a)
      × (length (stratum_username a (resolve_rig_from candidates)) ≤ 65)
stratum_username_payout addr a candidates h =
    let (long, hex) = validate_address_ok addr a h in
    username_by a (resolve_rig_from candidates) long hex (resolved_short candidates)
