-- ===== src/Autotune/Cache/Quotes.antt =====
-- src/backends/autotune.rs: the quotes and backslashes in the name of a device.
use csd_mining_pool_public.Prelude.{
  ◌≡◌, refl, sym, ap, ap₂, ◌∙◌, inl, inr, ◌++◌, false, some, [], ◌∷◌, Text, arith, ◌==◌, ℕ,
  Bool-cases, if◌then◌else◌,
}
use csd_mining_pool_public.Cli.{or_self}
use csd_mining_pool_public.Prelude.Ascii.{strip_prefix}
use csd_mining_pool_public.Autotune.Cache.{
  replace_char, replace_pair, strip_suffix, quote, backslash, escaped, quoted, and_strip_suffix,
  unquote,
}

-- A character that does not start the pair stays.
replace_pair_other :
    (a b to c : ℕ) (s : Text)
    → (c == a) ≡ false
    → replace_pair a b to (c ∷ s) ≡ c ∷ replace_pair a b to s
unfolding replace_pair
replace_pair_other a b to c [] h = refl
replace_pair_other a b to c (d ∷ s) h = rw (h, replace_pair) refl

-- A backslash before another character than a quote stays.
backslash_stays :
    (d : ℕ) (s : Text)
    → (d == quote) ≡ false
    → replace_pair backslash quote quote (backslash ∷ d ∷ s)
      ≡ backslash ∷ replace_pair backslash quote quote (d ∷ s)
unfolding replace_pair
backslash_stays d s h = rw (h, replace_pair) refl

doubled : Text → Text
doubled name = replace_char backslash (backslash ∷ backslash ∷ []) name

-- What `escaped` gives, one character of the name at a time.
abbrev escape : Text → Text
escape [] = []
escape (c ∷ s) =
    let rest = escape s in
    if c == backslash
    then backslash ∷ backslash ∷ rest
    else if c == quote
    then backslash ∷ quote ∷ rest
    else c ∷ rest

escaped-escape : (s : Text) → escaped s ≡ escape s
unfolding escaped replace_char
escaped-escape [] = refl
escaped-escape (c ∷ s) = elim (Bool-cases (c == backslash)) [
  | inl is_backslash ↦ rw is_backslash (ap (λ t. backslash ∷ backslash ∷ t) (escaped-escape s))
  | inr other ↦ elim (Bool-cases (c == quote)) [
    | inl is_quote ↦ rw (other, is_quote) (ap (λ t. backslash ∷ quote ∷ t) (escaped-escape s))
    | inr plain ↦ rw (other, plain) (ap (◌∷◌ c) (escaped-escape s))
  ]
]

-- A backslash before the rest of the text is not taken for the start of a quote.
backslash_kept :
    (s : Text)
    → replace_pair backslash quote quote (backslash ∷ escape s)
      ≡ backslash ∷ replace_pair backslash quote quote (escape s)
backslash_kept [] = unfold replace_pair in refl
backslash_kept (c ∷ s) = elim (Bool-cases (c == backslash)) [
  | inl is_backslash ↦ rw is_backslash (backslash_stays backslash (backslash ∷ escape s) refl)
  | inr other ↦ elim (Bool-cases (c == quote)) [
    | inl is_quote ↦ rw (other, is_quote) (backslash_stays backslash (quote ∷ escape s) refl)
    | inr plain ↦ rw (other, plain) (backslash_stays c (escape s) plain)
  ]
]

quote_back :
    (s : Text)
    → replace_pair backslash quote quote (backslash ∷ quote ∷ s)
      ≡ quote ∷ replace_pair backslash quote quote s
unfolding replace_pair
quote_back s = refl

-- The first pass takes the backslash off every quote.
quotes_back : (s : Text) → replace_pair backslash quote quote (escape s) ≡ doubled s
unfolding doubled replace_char
quotes_back [] = unfold replace_pair in refl
quotes_back (c ∷ s) = elim (Bool-cases (c == backslash)) [
  | inl is_backslash ↦ rw is_backslash (
      backslash_stays backslash (escape s) refl
      ∙ ap (◌∷◌ backslash) (backslash_kept s ∙ ap (◌∷◌ backslash) (quotes_back s)))
  | inr other ↦ elim (Bool-cases (c == quote)) [
    | inl is_quote ↦
        rw (other, is_quote)
          (let same : c ≡ quote = ground arith in
            quote_back (escape s) ∙ ap₂ ◌∷◌ (sym same) (quotes_back s))
    | inr plain ↦
        rw (other, plain)
          (replace_pair_other backslash quote quote c (escape s) other ∙ ap (◌∷◌ c) (quotes_back s))
  ]
]

backslash_back :
    (s : Text)
    → replace_pair backslash backslash backslash (backslash ∷ backslash ∷ s)
      ≡ backslash ∷ replace_pair backslash backslash backslash s
unfolding replace_pair
backslash_back s = refl

-- The second pass takes one of every two backslashes.
backslashes_back : (s : Text) → replace_pair backslash backslash backslash (doubled s) ≡ s
unfolding doubled replace_char
backslashes_back [] = unfold replace_pair in refl
backslashes_back (c ∷ s) = elim (Bool-cases (c == backslash)) [
  | inl is_backslash ↦ rw is_backslash (
      let same : c ≡ backslash = ground arith in
      backslash_back (doubled s) ∙ ap₂ ◌∷◌ (sym same) (backslashes_back s))
  | inr other ↦ rw other (
      replace_pair_other backslash backslash backslash c (doubled s) other
      ∙ ap (◌∷◌ c) (backslashes_back s))
]

strip_suffix-append : (s : Text) → strip_suffix quote (s ++ (quote ∷ [])) ≡ some s
unfolding strip_suffix
strip_suffix-append [] = refl
strip_suffix-append (c ∷ []) = refl
strip_suffix-append (c ∷ d ∷ s) = rw (strip_suffix-append (d ∷ s), strip_suffix) refl

-- A name in its quotes, escaped, is read back as it was, quotes and backslashes included.
pub unquote-quoted : (name : Text) → unquote (quoted name) ≡ name
unfolding unquote quoted and_strip_suffix or_self strip_prefix
unquote-quoted name =
    rw (strip_suffix-append (escaped name), escaped-escape name, quotes_back name)
      (backslashes_back name)
