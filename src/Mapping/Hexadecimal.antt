-- ===== src/Mapping/Hexadecimal.antt =====
-- Printing and parsing of a `u32` in base 16, as src/stratum/mapping.rs uses them.
use native.Mathlib.Nat.{pow-suc}
use csd_mining_pool_public.Prelude.{
  ℕ, zero, suc, ◌+◌, ◌*◌, ◌/◌, ◌%◌, ◌^◌, ◌<◌, ◌≡◌, ◌≢◌, refl, ap, ◌∙◌, some, [], ◌∷◌, ◌++◌, arith,
  lt→ltb, ltb→lt, Bool, true, false, Option, none, ltb, if◌then◌else◌, append_assoc, Text, length,
  length-append,
}
use csd_mining_pool_public.Mapping.{
  hex_digit, hex_digits_value, parse_hex_u32, lower_hex, hex_text, hex8,
}

pub hex_digit-lower_hex : (d : ℕ) → d < 16 → hex_digit (lower_hex d) ≡ some d
unfolding hex_digit lower_hex
hex_digit-lower_hex d h = ground arith

one_digit :
    (d acc : ℕ) (s : Text)
    → d < 16
    → acc * 16 + d < 2 ^ 32
    → hex_digits_value (lower_hex d ∷ s) acc ≡ hex_digits_value s (acc * 16 + d)
unfolding hex_digits_value
one_digit d acc s h fits =
    rw (hex_digits_value, hex_digit-lower_hex d h, lt→ltb (acc * 16 + d) (2 ^ 32) fits)

-- Reading the digits of a number appends them to the value so far.
hex_digits_value-hex_text :
    (k x acc : ℕ) (s : Text)
    → acc * 16 ^ k + x < 2 ^ 32
    → x < 16 ^ k
    → hex_digits_value (hex_text k x ++ s) acc ≡ hex_digits_value s (acc * 16 ^ k + x)
unfolding hex_text
hex_digits_value-hex_text zero x acc s fits h = ap (hex_digits_value s) (omega arith)
hex_digits_value-hex_text (suc k) x acc s fits h =
    let digit : x % 16 < 16 = omega arith in
    let high : x / 16 < 16 ^ k = omega (arith, pow-suc 16 k) in
    let split : (acc * 16 ^ k + x / 16) * 16 + x % 16 ≡ acc * 16 ^ suc k + x =
      omega (arith, ap (λ (t : ℕ). acc * t) (pow-suc 16 k)) in
    ap (λ t. hex_digits_value t acc)
      (append_assoc (hex_text k (x / 16)) (lower_hex (x % 16) ∷ []) s)
    ∙ hex_digits_value-hex_text k (x / 16) acc (lower_hex (x % 16) ∷ s) (omega (arith, split)) high
    ∙ one_digit (x % 16) (acc * 16 ^ k + x / 16) s digit (omega (arith, split))
    ∙ ap (hex_digits_value s) split

hex_digit-plus : (d : ℕ) → d < 16 → lower_hex d ≢ b'+'
unfolding lower_hex
hex_digit-plus d h = ground arith

parse_hex_u32-digit :
    (c d : ℕ) (s : Text) → c ≢ b'+' → parse_hex_u32 (c ∷ d ∷ s) ≡ hex_digits_value (c ∷ d ∷ s) 0
unfolding parse_hex_u32
parse_hex_u32-digit c d s h = ground arith

length-hex_text : (k x : ℕ) → length (hex_text k x) ≡ k
unfolding hex_text
length-hex_text zero x = refl
length-hex_text (suc k) x = omega (
  arith,
  length-append (hex_text k (x / 16)) (lower_hex (x % 16) ∷ []),
  length-hex_text k (x / 16),
)

parse_hex_u32-hex_text :
    (x : ℕ) → parse_hex_u32 (hex_text 8 x) ≡ hex_digits_value (hex_text 8 x ++ []) 0
unfolding hex_text
parse_hex_u32-hex_text x = parse_hex_u32-digit _ _ _ (hex_digit-plus _ (omega arith))

hex_digits_value_end : (x : ℕ) → hex_digits_value [] x ≡ some x
unfolding hex_digits_value
hex_digits_value_end x = refl

-- A u32 printed in base 16 has eight digits, and parsing them gives it back.
pub parse_hex_u32-hex8 :
    (x : ℕ) → x < 2 ^ 32 → (length (hex8 x) ≡ 8) × (parse_hex_u32 (hex8 x) ≡ some x)
unfolding hex8
parse_hex_u32-hex8 x h = (
  length-hex_text 8 x,
  parse_hex_u32-hex_text x
      ∙ hex_digits_value-hex_text 8 x 0 [] (omega arith) (omega arith)
      ∙ hex_digits_value_end (0 * 16 ^ 8 + x)
      ∙ ap some (omega arith),
)

guard_some :
    (b : Bool) {o : Option ℕ} {x : ℕ} → (if b then o else none) ≡ some x → (b ≡ true) × (o ≡ some x)
guard_some true h = (refl, h)
guard_some false h = absurd cc

one_digit_lt :
    (o : Option ℕ) (acc x : ℕ) (s : Text)
    → (elim o [
      | none ↦ none
      | some d ↦ if ltb (acc * 16 + d) (2 ^ 32) then hex_digits_value s (acc * 16 + d) else none
    ])
      ≡ some x
    → (d : ℕ) × (acc * 16 + d < 2 ^ 32) × (hex_digits_value s (acc * 16 + d) ≡ some x)
one_digit_lt none acc x s h = absurd cc
one_digit_lt (some d) acc x s h =
    let (fits, rest) = guard_some (ltb (acc * 16 + d) (2 ^ 32)) h in
    (d, ltb→lt (acc * 16 + d) (2 ^ 32) fits, rest)

hex_digits_value-lt :
    (s : Text) (acc x : ℕ) → acc < 2 ^ 32 → hex_digits_value s acc ≡ some x → x < 2 ^ 32
unfolding hex_digits_value
hex_digits_value-lt [] acc x lt h = let e : acc ≡ x = cc h in omega arith
hex_digits_value-lt (c ∷ s) acc x lt h =
    let (d, fits, rest) = one_digit_lt (hex_digit c) acc x s h in
    hex_digits_value-lt s (acc * 16 + d) x fits rest

-- A parsed value is a `u32`.
pub parse_hex_u32-lt : (s : Text) (x : ℕ) → parse_hex_u32 s ≡ some x → x < 2 ^ 32
unfolding parse_hex_u32
parse_hex_u32-lt [] x h = absurd cc
parse_hex_u32-lt (c ∷ []) x h = hex_digits_value-lt (c ∷ []) 0 x (omega arith) h
parse_hex_u32-lt (c ∷ d ∷ s) x h = ground (
  arith,
  hex_digits_value-lt (d ∷ s) 0 x (omega arith),
  hex_digits_value-lt (c ∷ d ∷ s) 0 x (omega arith),
)
