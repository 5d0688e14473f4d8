-- ===== src/Mapping/Extranonce.antt =====
-- src/stratum/mapping.rs: the eight bytes of the coinbase slot, and the submit's fields.
use csd_mining_pool_public.Prelude.{
  ℕ, ◌^◌, ◌<◌, ◌≡◌, sym, ap, ◌∙◌, some, List, ◌++◌, length, arith, u32,
}
use csd_mining_pool_public.Prelude.Bits.{bit_or_low_high}
use csd_mining_pool_public.Prelude.Bytes.{
  IsBytes, to_le_bytes, from_le_bytes, to_le_bytes-append, to_le_bytes-from_le_bytes,
  to_le_bytes-IsBytes, from_le_bytes-lt,
}
use csd_mining_pool_public.Mapping.{Hex, compose_extranonce, build_submit, parse_hex_u32}
use csd_mining_pool_public.Mapping.Hexadecimal.{parse_hex_u32-hex8}

pub to_le_bytes-compose_extranonce :
    (xn1 : List ℕ) (xn2 : ℕ)
    → IsBytes xn1
    → length xn1 ≡ 4
    → to_le_bytes 8 (compose_extranonce (from_le_bytes xn1) xn2) ≡ xn1 ++ to_le_bytes 4 xn2
unfolding compose_extranonce
to_le_bytes-compose_extranonce xn1 xn2 bytes four =
    let fits : from_le_bytes xn1 < 2 ^ 32 =
      omega (arith, from_le_bytes-lt xn1 bytes, ap (λ (n : ℕ). 256 ^ n) four) in
    ap (to_le_bytes 8) (bit_or_low_high 32 (from_le_bytes xn1) xn2 fits)
    ∙ to_le_bytes-append 4 4 (from_le_bytes xn1) xn2 fits
    ∙ ap (λ t. t ++ to_le_bytes 4 xn2)
        (ap (λ n. to_le_bytes n (from_le_bytes xn1)) (sym four)
          ∙ to_le_bytes-from_le_bytes xn1 bytes)

-- The three fields of a submit decode to the four bytes of the extranonce2, the time and the
-- nonce, where these two are u32.
pub build_submit_decodes :
    (hex : Hex) (xn2 time nonce : ℕ)
    → time < 2 ^ 32
    → nonce < 2 ^ 32
    → let fields = build_submit hex xn2 time nonce in
      (hex.decode fields.extranonce2_hex ≡ some (to_le_bytes 4 xn2))
      × (parse_hex_u32 fields.ntime_hex ≡ some time)
      × (parse_hex_u32 fields.nonce_hex ≡ some nonce)
unfolding build_submit
build_submit_decodes hex xn2 time nonce t n =
    let same : u32 time ≡ time = omega arith in
    (
      hex.decode-encode (to_le_bytes 4 xn2) (to_le_bytes-IsBytes 4 xn2),
      (parse_hex_u32-hex8 (u32 time) (omega arith)).1 ∙ ap some same,
      (parse_hex_u32-hex8 nonce n).1,
    )
