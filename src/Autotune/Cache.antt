-- ===== src/Autotune/Cache.antt =====
-- src/backends/autotune.rs: the text of the geometry cache. Text is ASCII, and the printing and the
-- parsing of an `f64` are parameters.
pub mod Quotes
use csd_mining_pool_public.Prelude.{
  ℕ, zero, suc, ◌+◌, ◌/◌, ◌%◌, ◌^◌, Bool, true, false, ◌&&◌, ◌||◌, Option, none, some, List, [],
  ◌∷◌, ◌++◌, Text, codes, text_eq, ltb, ◌==◌, if◌then◌else◌,
}
use csd_mining_pool_public.Prelude.Ascii.{
  trim, until, from_first, split, strip_prefix, parse_unsigned,
}
use csd_mining_pool_public.Prelude.Float.{F64}
use csd_mining_pool_public.Prelude.Results.{and_then}
use csd_mining_pool_public.Cli.{or_self}

pub record CachedGeometry : Type 0 where
  pub device_index : ℕ
  pub device_name : Text
  pub blocks : ℕ
  pub threads_per_block : ℕ
  pub nonces_per_thread : ℕ
  pub mh_s : F64

-- `replace` of a character by a text, and of a pair of characters by one.
unfoldable pub replace_char : ℕ → Text → Text → Text
replace_char from to [] = []
replace_char from to (c ∷ s) =
    let rest = replace_char from to s in if c == from then to ++ rest else c ∷ rest

unfoldable pub replace_pair : ℕ → ℕ → ℕ → Text → Text
replace_pair a b to [] = []
replace_pair a b to (c ∷ []) = c ∷ []
replace_pair a b to (c ∷ d ∷ s) = elim (c == a && d == b) [
  | true ↦ to ∷ replace_pair a b to s
  | false ↦ c ∷ replace_pair a b to (d ∷ s)
]

-- `strip_suffix` of a character.
unfoldable pub strip_suffix : ℕ → Text → Option Text
strip_suffix end [] = none
strip_suffix end (c ∷ []) = if c == end then some [] else none
strip_suffix end (c ∷ d ∷ s) = elim (strip_suffix end (d ∷ s)) [
  | some t ↦ some (c ∷ t)
  | none ↦ none
]

abbrev pub quote : ℕ
quote = 34

abbrev pub backslash : ℕ
backslash = 92

unfoldable pub escaped : Text → Text
unfolding replace_char
escaped name =
    replace_char quote (backslash ∷ quote ∷ [])
      (replace_char backslash (backslash ∷ backslash ∷ []) name)

-- The value of a name, in its quotes.
unfoldable pub quoted : Text → Text
unfolding escaped
quoted name = quote ∷ (escaped name ++ (quote ∷ []))

unfoldable pub and_strip_suffix : Option Text → Option Text
unfolding strip_suffix
and_strip_suffix none = none
and_strip_suffix (some s) = strip_suffix quote s

unfoldable pub unquote : Text → Text
unfolding and_strip_suffix replace_pair strip_prefix or_self
unquote v =
    let inner = or_self (and_strip_suffix (strip_prefix (quote ∷ []) v)) v in
    replace_pair backslash backslash backslash (replace_pair backslash quote quote inner)

-- A number in base 10, before a text; the fuel is more than the number.
unfoldable pub decimal_before : ℕ → ℕ → Text → Text
decimal_before zero n s = s
decimal_before (suc fuel) n s = elim (ltb n 10) [
  | true ↦ (b'0' + n) ∷ s
  | false ↦ decimal_before fuel (n / 10) ((b'0' + n % 10) ∷ s)
]

unfoldable pub decimal : ℕ → Text
unfolding decimal_before
decimal n = decimal_before (suc n) n []

unfoldable pub entry : Text → Text → Text
entry key value = key ++ (codes " = " ++ (value ++ codes "\n"))

unfoldable pub to_toml_string : (F64 → Text) → CachedGeometry → Text
unfolding entry quoted decimal
to_toml_string print g =
    entry (codes "device_index") (decimal g.device_index)
    ++ (entry (codes "device_name") (quoted g.device_name)
        ++ (entry (codes "blocks") (decimal g.blocks)
            ++ (entry (codes "threads_per_block") (decimal g.threads_per_block)
                ++ (entry (codes "nonces_per_thread") (decimal g.nonces_per_thread)
                    ++ entry (codes "mh_s") (print g.mh_s)))))

-- The variables of the parser.
pub record CacheFields : Type 0 where
  pub device_index : Option ℕ
  pub device_name : Option Text
  pub blocks : Option ℕ
  pub threads_per_block : Option ℕ
  pub nonces_per_thread : Option ℕ
  pub mh_s : Option F64

abbrev pub no_fields : CacheFields
no_fields = record {
  device_index = none;
  device_name = none;
  blocks = none;
  threads_per_block = none;
  nonces_per_thread = none;
  mh_s = none;
}

-- A zero dimension is refused.
unfoldable pub usable : CachedGeometry → Option CachedGeometry
usable g =
    if g.blocks == 0 || (g.threads_per_block == 0 || g.nonces_per_thread == 0) then none else some g

-- The geometry, if every variable is set.
unfoldable pub complete : CacheFields → Option CachedGeometry
unfolding usable
complete f = and_then f.device_index (λ i. and_then f.device_name (λ name. and_then f.blocks (λ b.
    and_then f.threads_per_block (λ t. and_then f.nonces_per_thread (λ n. and_then f.mh_s (λ m.
      usable (record {
        device_index = i;
        device_name = name;
        blocks = b;
        threads_per_block = t;
        nonces_per_thread = n;
        mh_s = m;
      })))))))

module _ (parse : Text → Option F64) where
  -- The match on the key.
  unfoldable pub set_field : Text → Text → CacheFields → CacheFields
  unfolding unquote parse_unsigned
  set_field key val f =
      if text_eq key (codes "device_index")
      then record f { device_index = parse_unsigned (2 ^ 64) val }
      else if text_eq key (codes "device_name")
      then record f { device_name = some (unquote val) }
      else if text_eq key (codes "blocks")
      then record f { blocks = parse_unsigned (2 ^ 32) val }
      else if text_eq key (codes "threads_per_block")
      then record f { threads_per_block = parse_unsigned (2 ^ 32) val }
      else if text_eq key (codes "nonces_per_thread")
      then record f { nonces_per_thread = parse_unsigned (2 ^ 32) val }
      else if text_eq key (codes "mh_s")
      then record f { mh_s = parse val }
      else f

  -- A line without its white space.
  unfoldable pub on_line : Text → CacheFields → Option CacheFields
  unfolding set_field until from_first trim
  on_line [] f = some f
  on_line (c ∷ s) f = if c == b'#' then some f else elim (from_first (λ d. d == b'=') (c ∷ s)) [
    | [] ↦ none
    | e ∷ val ↦ some (set_field (trim (until (λ d. d == b'=') (c ∷ s))) (trim val) f)
  ]

  -- The loop over the lines; each is trimmed, so what `lines` does to a `\r` makes no difference,
  -- nor does an empty piece after the last one.
  unfoldable pub on_lines : List Text → CacheFields → Option CacheFields
  unfolding on_line trim
  on_lines [] f = some f
  on_lines (line ∷ lines) f = and_then (on_line (trim line) f) (λ next. on_lines lines next)

  unfoldable pub parse_toml : Text → Option CachedGeometry
  unfolding on_lines complete split
  parse_toml s = and_then (on_lines (split (λ c. c == b'\n') s) no_fields) complete
