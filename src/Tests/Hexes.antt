-- ===== src/Tests/Hexes.antt =====
-- A `hex` crate that keeps its word.
use csd_mining_pool_public.Prelude.{
  ℕ, ◌+◌, ◌*◌, ◌/◌, ◌%◌, ◌≡◌, refl, ap, subst, ◌<◌, Option, none, some, List, [], ◌∷◌, Text, arith,
}
use csd_mining_pool_public.Prelude.Bytes.{IsBytes}
use csd_mining_pool_public.Mapping.{Hex, hex_digit, lower_hex}
use csd_mining_pool_public.Mapping.Hexadecimal.{hex_digit-lower_hex}

abbrev pub encode : List ℕ → Text
encode [] = []
encode (b ∷ bs) = lower_hex (b / 16) ∷ lower_hex (b % 16) ∷ encode bs

abbrev pub pair : Option ℕ → Option ℕ → Option (List ℕ) → Option (List ℕ)
pair (some high) (some low) (some rest) = some ((high * 16 + low) ∷ rest)
pair (some high) (some low) none = none
pair (some high) none rest = none
pair none low rest = none

abbrev pub decode : Text → Option (List ℕ)
decode [] = some []
decode (a ∷ []) = none
decode (a ∷ b ∷ s) = pair (hex_digit a) (hex_digit b) (decode s)

pub decode-encode : (bs : List ℕ) → IsBytes bs → decode (encode bs) ≡ some bs
decode-encode [] h = refl
decode-encode (b ∷ bs) h =
    rw
      (
        hex_digit-lower_hex (b / 16) (omega (arith, h.0)),
        hex_digit-lower_hex (b % 16) (omega arith),
        decode-encode bs h.1,
      )
      (ap (λ (x : ℕ). some (x ∷ bs)) (omega arith))

digit_below : (c d : ℕ) → hex_digit c ≡ some d → d < 16
unfolding hex_digit
digit_below c d h = ground arith

pair-IsBytes :
    (o p : Option ℕ) (q : Option (List ℕ)) (bs : List ℕ)
    → ((d : ℕ) → o ≡ some d → d < 16)
    → ((d : ℕ) → p ≡ some d → d < 16)
    → ((r : List ℕ) → q ≡ some r → IsBytes r)
    → pair o p q ≡ some bs
    → IsBytes bs
pair-IsBytes (some high) (some low) (some rest) bs f g k h =
    let e : (high * 16 + low) ∷ rest ≡ bs = cc h in
    subst IsBytes e (omega (arith, f high refl, g low refl), k rest refl)
pair-IsBytes (some high) (some low) none bs f g k h = absurd cc
pair-IsBytes (some high) none q bs f g k h = absurd cc
pair-IsBytes none p q bs f g k h = absurd cc

pub decode-IsBytes : (s : Text) (bs : List ℕ) → decode s ≡ some bs → IsBytes bs
decode-IsBytes [] bs h = let e : [] ≡ bs = cc h in subst IsBytes e tt
decode-IsBytes (a ∷ []) bs h = absurd cc
decode-IsBytes (a ∷ b ∷ s) bs h =
    pair-IsBytes (hex_digit a) (hex_digit b) (decode s) bs (digit_below a) (digit_below b)
      (decode-IsBytes s) h

abbrev pub hex : Hex
hex = record {
  encode = encode;
  decode = decode;
  decode-encode = decode-encode;
  decode-IsBytes = decode-IsBytes;
}
