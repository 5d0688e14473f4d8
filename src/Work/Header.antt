-- ===== src/Work/Header.antt =====
-- src/coinbase.rs: the layout of the header.
use csd_mining_pool_public.Prelude.{
  ℕ, ◌^◌, ◌<◌, ◌≡◌, refl, ap, sym, ◌∙◌, List, ◌++◌, length, take, drop, arith, append_assoc,
  length-append, take-append_of, drop-append_of,
}
use csd_mining_pool_public.Prelude.Bytes.{
  to_le_bytes, from_le_bytes, length-to_le_bytes, from_le_bytes-to_le_bytes,
}
use csd_mining_pool_public.Work.{WorkTemplate, header_84, work_template_encode}

-- Values of the width that the source's types give them.
pub record HasWidths (version : ℕ) (prev merkle : List ℕ) (time bits nonce : ℕ) : Type 0 where
  pub version_fits : version < 2 ^ 32
  pub prev_length : length prev ≡ 32
  pub merkle_length : length merkle ≡ 32
  pub time_fits : time < 2 ^ 64
  pub bits_fits : bits < 2 ^ 32
  pub nonce_fits : nonce < 2 ^ 32

module _ (version : ℕ) (prev merkle : List ℕ) (time bits nonce : ℕ) where
  abbrev after_merkle : List ℕ
  after_merkle = to_le_bytes 8 time ++ (to_le_bytes 4 bits ++ to_le_bytes 4 nonce)

  pub length-header_84 :
      length prev ≡ 32
      → length merkle ≡ 32
      → length (header_84 version prev merkle time bits nonce) ≡ 84
  unfolding header_84 to_le_bytes
  length-header_84 p m =
      omega (arith, length-append prev (merkle ++ after_merkle), length-append merkle after_merkle)

  drop-4 : drop 4 (header_84 version prev merkle time bits nonce) ≡ prev ++ (merkle ++ after_merkle)
  unfolding header_84
  drop-4 = drop-append_of 4 0 (to_le_bytes 4 version) _ (length-to_le_bytes 4 version)

  drop-36 :
      length prev ≡ 32
      → drop 36 (header_84 version prev merkle time bits nonce) ≡ merkle ++ after_merkle
  unfolding header_84
  drop-36 p =
      drop-append_of 4 32 (to_le_bytes 4 version) _ (length-to_le_bytes 4 version)
      ∙ drop-append_of 32 0 prev (merkle ++ after_merkle) p

  drop-68 :
      length prev ≡ 32
      → length merkle ≡ 32
      → drop 68 (header_84 version prev merkle time bits nonce) ≡ after_merkle
  unfolding header_84
  drop-68 p m =
      drop-append_of 4 64 (to_le_bytes 4 version) _ (length-to_le_bytes 4 version)
      ∙ drop-append_of 32 32 prev (merkle ++ after_merkle) p
      ∙ drop-append_of 32 0 merkle after_merkle m

  drop-76 :
      length prev ≡ 32
      → length merkle ≡ 32
      → drop 76 (header_84 version prev merkle time bits nonce)
        ≡ to_le_bytes 4 bits ++ to_le_bytes 4 nonce
  unfolding header_84
  drop-76 p m =
      drop-append_of 4 72 (to_le_bytes 4 version) _ (length-to_le_bytes 4 version)
      ∙ drop-append_of 32 40 prev (merkle ++ after_merkle) p
      ∙ drop-append_of 32 8 merkle after_merkle m
      ∙ drop-append_of 8 0 (to_le_bytes 8 time) _ (length-to_le_bytes 8 time)

  pub drop-80 :
      length prev ≡ 32
      → length merkle ≡ 32
      → drop 80 (header_84 version prev merkle time bits nonce) ≡ to_le_bytes 4 nonce
  unfolding header_84
  drop-80 p m =
      drop-append_of 4 76 (to_le_bytes 4 version) _ (length-to_le_bytes 4 version)
      ∙ drop-append_of 32 44 prev (merkle ++ after_merkle) p
      ∙ drop-append_of 32 12 merkle after_merkle m
      ∙ drop-append_of 8 4 (to_le_bytes 8 time) _ (length-to_le_bytes 8 time)
      ∙ drop-append_of 4 0 (to_le_bytes 4 bits) _ (length-to_le_bytes 4 bits)

-- The leading field of a byte string, read as an integer of `k` bytes.
leading_field :
    (k x : ℕ) (rest : List ℕ) → x < 256 ^ k → from_le_bytes (take k (to_le_bytes k x ++ rest)) ≡ x
leading_field k x rest h =
    ap from_le_bytes (take-append_of k (to_le_bytes k x) rest (length-to_le_bytes k x))
    ∙ from_le_bytes-to_le_bytes k x h

-- A header of fields of their widths has 84 bytes, and every field can be read back from its place
-- in them.
pub header_84_fields :
    (version : ℕ) (prev merkle : List ℕ) (time bits nonce : ℕ)
    → HasWidths version prev merkle time bits nonce
    → let h = header_84 version prev merkle time bits nonce in
      (length h ≡ 84)
      × (from_le_bytes (take 4 h) ≡ version)
      × (take 32 (drop 4 h) ≡ prev)
      × (take 32 (drop 36 h) ≡ merkle)
      × (from_le_bytes (take 8 (drop 68 h)) ≡ time)
      × (from_le_bytes (take 4 (drop 76 h)) ≡ bits)
      × (from_le_bytes (drop 80 h) ≡ nonce)
header_84_fields version prev merkle time bits nonce w =
    let p = w.prev_length in
    let m = w.merkle_length in
    (
      length-header_84 version prev merkle time bits nonce p m,
      unfold header_84 in leading_field 4 version _ w.version_fits,
      ap (take 32) (drop-4 version prev merkle time bits nonce) ∙ take-append_of 32 prev _ p,
      ap (take 32) (drop-36 version prev merkle time bits nonce p) ∙ take-append_of 32 merkle _ m,
      ap (λ t. from_le_bytes (take 8 t)) (drop-68 version prev merkle time bits nonce p m)
          ∙ leading_field 8 time _ w.time_fits,
      ap (λ t. from_le_bytes (take 4 t)) (drop-76 version prev merkle time bits nonce p m)
          ∙ leading_field 4 bits _ w.bits_fits,
      ap from_le_bytes (drop-80 version prev merkle time bits nonce p m)
          ∙ from_le_bytes-to_le_bytes 4 nonce w.nonce_fits,
    )

-- The template's own encoder writes the same 84 bytes.
pub work_template_encode-eq-header_84 :
    (t : WorkTemplate) (merkle_root : List ℕ) (nonce : ℕ)
    → work_template_encode t merkle_root nonce
      ≡ header_84 t.version t.prev merkle_root t.time t.bits nonce
unfolding work_template_encode header_84
work_template_encode-eq-header_84 t merkle_root nonce = refl

-- The 80 bytes before the nonce.
abbrev front : ℕ → List ℕ → List ℕ → ℕ → ℕ → List ℕ
front version prev merkle time bits =
    to_le_bytes 4 version ++ (prev ++ (merkle ++ (to_le_bytes 8 time ++ to_le_bytes 4 bits)))

header_84-front :
    (version : ℕ) (prev merkle : List ℕ) (time bits nonce : ℕ)
    → front version prev merkle time bits ++ to_le_bytes 4 nonce
      ≡ header_84 version prev merkle time bits nonce
unfolding header_84
header_84-front version prev merkle time bits nonce = simp append_assoc

-- Overwriting the last four bytes of a header is giving it another nonce.
pub header_84_overwrite :
    (version : ℕ) (prev merkle : List ℕ) (time bits old nonce : ℕ)
    → length prev ≡ 32
    → length merkle ≡ 32
    → take 80 (header_84 version prev merkle time bits old) ++ to_le_bytes 4 nonce
      ≡ header_84 version prev merkle time bits nonce
header_84_overwrite version prev merkle time bits old nonce p m =
    let eighty : length (front version prev merkle time bits) ≡ 80 = omega (
      arith,
      length-append (to_le_bytes 4 version)
          (prev ++ (merkle ++ (to_le_bytes 8 time ++ to_le_bytes 4 bits))),
      length-append prev (merkle ++ (to_le_bytes 8 time ++ to_le_bytes 4 bits)),
      length-append merkle (to_le_bytes 8 time ++ to_le_bytes 4 bits),
      length-append (to_le_bytes 8 time) (to_le_bytes 4 bits),
      length-to_le_bytes 4 version,
      length-to_le_bytes 8 time,
      length-to_le_bytes 4 bits,
    ) in
    ap (λ t. take 80 t ++ to_le_bytes 4 nonce)
      (sym (header_84-front version prev merkle time bits old))
    ∙ ap (λ t. t ++ to_le_bytes 4 nonce)
        (take-append_of 80 (front version prev merkle time bits) _ eighty)
    ∙ header_84-front version prev merkle time bits nonce
