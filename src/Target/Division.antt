-- ===== src/Target/Division.antt =====
-- src/stratum/loop_stratum.rs: the long division of a target, on numbers.
use Prim.Native.Nat.{bit_or}
use native.Mathlib.Nat.{
  pow-suc, mod-lt, mod-eq_of_lt, div-add-mod', div-lt_iff_lt-mul, div-eq_of_lt-le,
}
use csd_mining_pool_public.Prelude.{
  ℕ, suc, ◌+◌, ◌*◌, ◌/◌, ◌%◌, ◌^◌, ◌<◌, ◌≡◌, refl, sym, ap, List, [], ◌∷◌, length, arith,
}
use csd_mining_pool_public.Prelude.Bits.{bit_or_high_low}
use csd_mining_pool_public.Prelude.Bytes.{IsBytes, from_be_bytes}
use csd_mining_pool_public.Target.{div_bytes, u256_div_u64_be}

length-div_bytes : (d : ℕ) (bs : List ℕ) (rem : ℕ) → length (div_bytes d rem bs) ≡ length bs
unfolding div_bytes
length-div_bytes d [] rem = refl
length-div_bytes d (b ∷ bs) rem = ap suc (length-div_bytes d bs (bit_or (rem * 2 ^ 8) b % d))

quotient_fits : (d rem b : ℕ) → rem < d → b < 256 → (rem * 256 + b) / d < 256
quotient_fits d rem b lt hb =
    let pos : 0 < d = omega arith in (div-lt_iff_lt-mul pos).1 (omega arith)

-- One round: the `|` is a sum, and the quotient fits in its byte.
div_bytes-cons :
    (d rem b : ℕ) (bs : List ℕ)
    → rem < d
    → b < 256
    → div_bytes d rem (b ∷ bs) ≡ (rem * 256 + b) / d ∷ div_bytes d ((rem * 256 + b) % d) bs
unfolding div_bytes
div_bytes-cons d rem b bs lt hb =
    let joined : bit_or (rem * 2 ^ 8) b ≡ rem * 256 + b = bit_or_high_low 8 rem b hb in
    rw (joined, mod-eq_of_lt (quotient_fits d rem b lt hb))

carry :
    (d acc p q r v last n : ℕ)
    → q * d + r ≡ acc
    → v * d + last ≡ r * p + n
    → (q * p + v) * d + last ≡ acc * p + n
carry d acc p q r v last n e f = omega (arith, ap (λ (t : ℕ). t * p) e)

-- The value of a quotient with one more byte in front.
cons_value :
    (d rem b : ℕ) (bs : List ℕ) (last : ℕ)
    → let acc = rem * 256 + b in
      from_be_bytes (div_bytes d (acc % d) bs) * d + last
        ≡ acc % d * 256 ^ length bs + from_be_bytes bs
      → from_be_bytes (acc / d ∷ div_bytes d (acc % d) bs) * d + last
        ≡ rem * 256 ^ length (b ∷ bs) + from_be_bytes (b ∷ bs)
unfolding from_be_bytes
cons_value d rem b bs last e =
    let acc : ℕ = rem * 256 + b in
    let p : ℕ = 256 ^ length bs in
    let v : ℕ = from_be_bytes (div_bytes d (acc % d) bs) in
    omega (
      arith,
      ap (λ (n : ℕ). (acc / d * 256 ^ n + v) * d) (length-div_bytes d bs (acc % d)),
      carry d acc p (acc / d) (acc % d) v last (from_be_bytes bs) (div-add-mod' acc d) e,
      ap (λ (t : ℕ). rem * t) (pow-suc 256 (length bs)),
    )

-- The quotient bytes and the last remainder give back the remainder so far and the bytes.
div_bytes_value :
    (d : ℕ) (bs : List ℕ) (rem : ℕ)
    → IsBytes bs
    → rem < d
    → (last : ℕ) × (last < d)
      × (from_be_bytes (div_bytes d rem bs) * d + last ≡ rem * 256 ^ length bs + from_be_bytes bs)
div_bytes_value d [] rem h lt = (rem, lt, unfold div_bytes from_be_bytes in omega arith)
div_bytes_value d (b ∷ bs) rem h lt =
    let acc : ℕ = rem * 256 + b in
    let (last, below, e) = div_bytes_value d bs (acc % d) h.1 (mod-lt acc (omega arith)) in
    (last, below, rw (div_bytes-cons d rem b bs lt h.0) (cons_value d rem b bs last e))

-- The long division of a big-endian byte string by a positive divisor gives the bytes of the
-- quotient, as many as the dividend has.
pub u256_div_u64_be_lem :
    (dividend : List ℕ) (divisor : ℕ)
    → IsBytes dividend
    → 0 < divisor
    → (from_be_bytes (u256_div_u64_be dividend divisor) ≡ from_be_bytes dividend / divisor)
      × (length (u256_div_u64_be dividend divisor) ≡ length dividend)
unfolding u256_div_u64_be
u256_div_u64_be_lem dividend divisor h p =
    let (last, below, e) = div_bytes_value divisor dividend 0 h p in
    (sym (div-eq_of_lt-le divisor (omega arith) (omega arith)), length-div_bytes divisor dividend 0)
