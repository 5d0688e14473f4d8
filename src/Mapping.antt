-- ===== src/Mapping.antt =====
-- src/stratum/mapping.rs: from a `mining.notify` to a work template, and from a found share to the
-- fields of a `mining.submit`. The `hex` crate is the parameter `Hex`.
pub mod Hexadecimal
pub mod Extranonce
use Prim.Native.Nat.{bit_or, bit_xor}
use csd_mining_pool_public.Prelude.{
  ℕ, zero, suc, ◌+◌, ◌*◌, ◌-◌, ◌/◌, ◌%◌, ◌^◌, Bool, ◌&&◌, ◌≡◌, Option, none, some, List, [], ◌∷◌,
  ◌++◌, reverse, Text, length, ltb, leb, ◌==◌, if◌then◌else◌, u32, u64,
}
use csd_mining_pool_public.Prelude.Bytes.{IsBytes, to_le_bytes, from_le_bytes}
use csd_mining_pool_public.Prelude.Results.{Result, ok, err, ◌>>=◌, ok_or}
use csd_mining_pool_public.Protocol.{NotifyParams}
use csd_mining_pool_public.Work.{WorkTemplate}

-- `hex::encode` and `hex::decode`, with what their documentation says.
pub record Hex : Type 0 where
  pub encode : List ℕ → Text
  pub decode : Text → Option (List ℕ)
  pub decode-encode : (bs : List ℕ) → IsBytes bs → decode (encode bs) ≡ some bs
  pub decode-IsBytes : (s : Text) (bs : List ℕ) → decode s ≡ some bs → IsBytes bs

-- A digit in base 16, of either case.
unfoldable pub hex_digit : ℕ → Option ℕ
hex_digit c =
    if leb b'0' c && leb c b'9'
    then some (c - b'0')
    else if leb b'a' c && leb c b'f'
    then some (c - b'a' + 10)
    else if leb b'A' c && leb c b'F'
    then some (c - b'A' + 10)
    else none

-- The digits from the value so far; `none` also if the value leaves `u32`.
unfoldable pub hex_digits_value : Text → ℕ → Option ℕ
hex_digits_value [] acc = some acc
hex_digits_value (c ∷ s) acc = elim (hex_digit c) [
  | none ↦ none
  | some d ↦ if ltb (acc * 16 + d) (2 ^ 32) then hex_digits_value s (acc * 16 + d) else none
]

-- `u32::from_str_radix(s, 16)`: an optional `+`, then at least one digit.
unfoldable pub parse_hex_u32 : Text → Option ℕ
parse_hex_u32 [] = none
parse_hex_u32 (c ∷ []) = hex_digits_value (c ∷ []) 0
parse_hex_u32 (c ∷ d ∷ s) =
    if c == b'+' then hex_digits_value (d ∷ s) 0 else hex_digits_value (c ∷ d ∷ s) 0

-- The lowercase digit of a value below 16.
unfoldable pub lower_hex : ℕ → ℕ
lower_hex d = if ltb d 10 then b'0' + d else b'a' + (d - 10)

-- The last `k` digits of a number, first digit first.
unfoldable pub hex_text : ℕ → ℕ → Text
unfolding lower_hex
hex_text zero x = []
hex_text (suc k) x = hex_text k (x / 16) ++ (lower_hex (x % 16) ∷ [])

-- `format!("{:08x}", x)` of a `u32`, which has eight digits at most.
unfoldable pub hex8 : ℕ → Text
unfolding hex_text
hex8 x = hex_text 8 x

pub data MapError : Type 0 where
  bad_version : MapError
  bad_nbits : MapError
  bad_ntime : MapError
  bad_hash : MapError
  wrong_hash_length : ℕ → MapError
  bad_coinb1 : MapError
  bad_coinb2 : MapError
  wrong_extranonce1 : ℕ → MapError

pub record MappedJob : Type 0 where
  pub template : WorkTemplate
  pub job_id : Text
  pub xn1_low : ℕ

pub record SubmitFields : Type 0 where
  pub extranonce2_hex : Text
  pub ntime_hex : Text
  pub nonce_hex : Text

-- `xn1_low | (xn2 << 32)` on `u64`; both halves are `u32`, so the shift loses no digit.
unfoldable pub compose_extranonce : ℕ → ℕ → ℕ
compose_extranonce xn1_low xn2 = bit_or xn1_low (xn2 * 2 ^ 32)

unfoldable pub build_submit : Hex → ℕ → ℕ → ℕ → SubmitFields
unfolding hex8
build_submit hex xn2 time nonce = record {
  extranonce2_hex = hex.encode (to_le_bytes 4 xn2);
  ntime_hex = hex8 (u32 time);
  nonce_hex = hex8 nonce;
}

-- A decoded hash of the right length.
unfoldable pub checked_hash32 : List ℕ → Result MapError (List ℕ)
checked_hash32 v = if length v == 32 then ok v else err (wrong_hash_length (length v))

unfoldable pub decode_hash32 : Hex → Text → Result MapError (List ℕ)
unfolding checked_hash32
decode_hash32 hex s = ok_or (hex.decode s) bad_hash >>= checked_hash32

-- The merkle branch; the first entry that fails gives the error.
unfoldable pub decode_branch : Hex → List Text → Result MapError (List (List ℕ))
unfolding decode_hash32
decode_branch hex [] = ok []
decode_branch hex (h ∷ hs) = do
  sib ← decode_hash32 hex h
  rest ← decode_branch hex hs
  ok (sib ∷ rest)

-- FNV-1a on `u64`.
unfoldable pub fnv1a64_from : Text → ℕ → ℕ
fnv1a64_from [] h = h
fnv1a64_from (b ∷ bs) h = fnv1a64_from bs (u64 (bit_xor h b * 0x0000_0100_0000_01b3))

unfoldable pub fnv1a64 : Text → ℕ
unfolding fnv1a64_from
fnv1a64 bytes = fnv1a64_from bytes 0xcbf2_9ce4_8422_2325

-- `extranonce1.try_into()` to four bytes.
unfoldable pub four_bytes : List ℕ → Result MapError (List ℕ)
four_bytes xn1 = if length xn1 == 4 then ok xn1 else err (wrong_extranonce1 (length xn1))

unfoldable pub notify_to_template : Hex → NotifyParams → List ℕ → List ℕ → Result MapError MappedJob
unfolding parse_hex_u32 hex_digits_value hex_digit decode_hash32 decode_branch four_bytes fnv1a64
notify_to_template hex n extranonce1 share_target = do
  version ← ok_or (parse_hex_u32 n.version_hex) bad_version
  bits ← ok_or (parse_hex_u32 n.nbits_hex) bad_nbits
  time ← ok_or (parse_hex_u32 n.ntime_hex) bad_ntime
  prev ← decode_hash32 hex n.prev_hash_be_hex
  coinbase_prefix ← ok_or (hex.decode n.coinb1_hex) bad_coinb1
  coinbase_suffix ← ok_or (hex.decode n.coinb2_hex) bad_coinb2
  merkle_branch ← decode_branch hex n.merkle_branches_hex
  xn1_arr ← four_bytes extranonce1
  ok (record {
    template = record {
      id = fnv1a64 n.job_id;
      version = version;
      prev = reverse prev;
      time = time;
      bits = bits;
      target = share_target;
      coinbase_prefix = coinbase_prefix;
      extranonce_size = 8;
      coinbase_suffix = coinbase_suffix;
      merkle_branch = merkle_branch;
      nonce_start = 0;
      nonce_end = 2 ^ 32 - 1;
      height = 0;
    };
    job_id = n.job_id;
    xn1_low = from_le_bytes xn1_arr;
  })
