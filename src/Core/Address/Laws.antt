-- ===== src/Core/Address/Laws.antt =====
-- Addresses of internal/core/wallet.go: which texts are addresses, and when two are one.
use entcoin.Base.{
  ℕ, ◌+◌, ◌*◌, ◌/◌, ◌%◌, ◌<◌, ◌≡◌, refl, sym, subst, ap, ◌∙◌, ◌↔◌, true, ◌&&◌, [], ◌∷◌, ◌++◌, map,
  Bytes, All, All-append, All-take, length, take, drop, eqb, bytes_eq_iff, Result, ok, err, ◌>>=◌,
  >>=-eq-ok, fail_if-eq-ok, is_ok, arith, some, length-append, length-take, Option-cases, inl, inr,
  take_append, drop_append, is_ok_lem, take-append-drop, fail_if, ◌>>◌, invalid_address, bytes_eq,
  not, ◌||◌, length-drop,
}
use entcoin.Core.Encoding.{
  Crypto, CryptoLaws, hex_encode, hex_decode, hex_digit, from_hex_char, hex_byte,
}
use entcoin.Core.Encoding.Hex.{
  hex_decode-hex_encode, hex_decode-length, hex_decode_step, hex_decode_odd,
}
use entcoin.Core.Address.{
  to_lower, address_prefix, address_from_public_key, check_payload, validate_address, equal_fold,
  addresses_equal, decoded_payload,
}
use entcoin.Core.Address.Bits.{equal_bytes_iff}

-- A character that is read as a digit is, in lower case, the digit that is printed.
to_lower-hex : (a n : ℕ) → from_hex_char a ≡ some n → (to_lower a ≡ hex_digit n) × (n < 16)
to_lower-hex a n h = ground arith

hex_byte-ok :
    (a b n : ℕ)
    → hex_byte a b ≡ ok n
    → (h l : ℕ) × (from_hex_char a ≡ some h) × (from_hex_char b ≡ some l) × (n ≡ h * 16 + l)
hex_byte-ok a b n h = elim (Option-cases (from_hex_char a)) [
  | inl bad ↦ absurd (ground arith)
  | inr (x, e) ↦ elim (Option-cases (from_hex_char b)) [
    | inl bad ↦ absurd (ground arith)
    | inr (y, f) ↦ (x, y, e, f, ground arith)
  ]
]

hex_byte_lower :
    (a b n : ℕ)
    → hex_byte a b ≡ ok n
    → (to_lower a ≡ hex_digit (n / 16)) × (to_lower b ≡ hex_digit (n % 16)) × (n < 256)
hex_byte_lower a b n h =
    let (x, y, e, f, value) = hex_byte-ok a b n h in
    let high = to_lower-hex a x e in
    let low = to_lower-hex b y f in
    let high_digit : n / 16 ≡ x = omega arith in
    let low_digit : n % 16 ≡ y = omega arith in
    rw (high_digit, low_digit) (high.0, low.0, omega arith)

hex_decode_empty : hex_decode [] ≡ ok []
unfolding hex_decode
hex_decode_empty = refl

hex_encode_cons :
    (b : ℕ) (bs : Bytes)
    → hex_encode (b ∷ bs) ≡ hex_digit (b / 16) ∷ hex_digit (b % 16) ∷ hex_encode bs
unfolding hex_encode
hex_encode_cons b bs = refl

-- Text that decodes is, in lower case, the text of its bytes.
pub hex_decode_lower :
    (v : Bytes) (bs : Bytes)
    → hex_decode v ≡ ok bs
    → (map to_lower v ≡ hex_encode bs) × All (λ b. b < 256) bs
hex_decode_lower [] [] e = (unfold hex_encode in refl, tt)
hex_decode_lower [] (b ∷ bs) e = cc (hex_decode_empty)
hex_decode_lower (a ∷ []) bs e = cc (hex_decode_odd a)
hex_decode_lower (a ∷ b ∷ v) bs e =
    let outer =
      >>=-eq-ok (hex_byte a b) (λ byte. hex_decode v >>= λ bytes. ok (byte ∷ bytes))
        (sym (hex_decode_step a b v) ∙ e) in
    let inner = >>=-eq-ok (hex_decode v) (λ bytes. ok (outer.0 ∷ bytes)) outer.2 in
    let ih = hex_decode_lower v inner.0 inner.1 in
    let here = hex_byte_lower a b outer.0 outer.1 in
    let whole : outer.0 ∷ inner.0 ≡ bs = ground (arith, inner.2) in
    subst (λ out. (map to_lower (a ∷ b ∷ v) ≡ hex_encode out) × All (λ x. x < 256) out) whole
      (cc (here.0, here.1, ih.0, hex_encode_cons outer.0 inner.0), (here.2, ih.1))

-- Two texts that decode have the same bytes exactly when they differ in case at most.
hex_fold_iff :
    (v w bs cs : Bytes)
    → hex_decode v ≡ ok bs
    → hex_decode w ≡ ok cs
    → (map to_lower v ≡ map to_lower w) ↔ (bs ≡ cs)
hex_fold_iff v w bs cs e f =
    let v' = hex_decode_lower v bs e in
    let w' = hex_decode_lower w cs f in
    (
      λ same. cc (
        hex_decode-hex_encode bs v'.1,
        hex_decode-hex_encode cs w'.1,
        ap hex_decode (sym v'.0 ∙ same ∙ w'.0),
      ),
      λ same. cc (v'.0, w'.0),
    )

lower_prefix :
    (a : Bytes)
    → take 4 a ≡ address_prefix
    → map to_lower a ≡ address_prefix ++ map to_lower (drop 4 a)
lower_prefix a h =
    subst (λ s. map to_lower s ≡ address_prefix ++ map to_lower (drop 4 a)) (take-append-drop 4 a)
      (rw h refl)

equal_fold_iff : (s t : Bytes) → (equal_fold s t ≡ true) ↔ (map to_lower s ≡ map to_lower t)
unfolding equal_fold
equal_fold_iff s t = bytes_eq_iff (map to_lower s) (map to_lower t)

module _ ⦃c : Crypto⦄ where
  validate_address_step :
      (a : Bytes)
      → validate_address a ≡ (
          fail_if
            (not (eqb (length a) 52) || not (bytes_eq (take 4 a) address_prefix))
            invalid_address
          >> decoded_payload (hex_decode (drop 4 a)))
  unfolding validate_address
  validate_address_step a = refl

  decoded_payload-ok :
      (r : Result Bytes)
      → decoded_payload r ≡ ok tt
      → (bs : Bytes) × (r ≡ ok bs) × (check_payload bs ≡ ok tt)
  decoded_payload-ok (ok bs) h = (bs, refl, h)
  decoded_payload-ok (err e) h = cc

  -- What an accepted address is made of.
  pub validate_address-ok :
      (a : Bytes)
      → validate_address a ≡ ok tt
      → (bs : Bytes) × (take 4 a ≡ address_prefix)
        × (hex_decode (drop 4 a) ≡ ok bs)
        × (check_payload bs ≡ ok tt)
  validate_address-ok a h =
      let (shape, rest) =
        fail_if-eq-ok (not (eqb (length a) 52) || not (bytes_eq (take 4 a) address_prefix))
          invalid_address (decoded_payload (hex_decode (drop 4 a)))
          (sym (validate_address_step a) ∙ h) in
      let (bs, e, f) = decoded_payload-ok (hex_decode (drop 4 a)) rest in
      (bs, ground (arith, shape, bytes_eq_iff (take 4 a) address_prefix), e, f)

  check_payload-length : (bs : Bytes) → check_payload bs ≡ ok tt → length bs ≡ 24
  unfolding check_payload
  check_payload-length bs h = ground arith

  -- An address is the prefix and the text of a payload with its checksum.
  pub validate_address_intro :
      (a bs : Bytes)
      → take 4 a ≡ address_prefix
      → hex_decode (drop 4 a) ≡ ok bs
      → check_payload bs ≡ ok tt
      → validate_address a ≡ ok tt
  validate_address_intro a bs p e f =
      let size : length a ≡ 52 = omega (
        arith,
        check_payload-length bs f,
        hex_decode-length (drop 4 a) e,
        length-drop 4 a,
        length-take 4 a,
        ap length p,
      ) in
      validate_address_step a
      ∙ rw (size, e) (ground (arith, f, bytes_eq_iff (take 4 a) address_prefix))

  fold_iff :
      (left right : Bytes)
      → validate_address left ≡ ok tt
      → validate_address right ≡ ok tt
      → (equal_fold left right ≡ true) ↔ (hex_decode (drop 4 left) ≡ hex_decode (drop 4 right))
  fold_iff left right vl vr =
      let (bs, p, e, f) = validate_address-ok left vl in
      let (cs, q, g, k) = validate_address-ok right vr in
      let lower = hex_fold_iff (drop 4 left) (drop 4 right) bs cs e g in
      (
        λ h.
            let same = (equal_fold_iff left right).0 h in
            let tails : map to_lower (drop 4 left) ≡ map to_lower (drop 4 right) =
              cc (same, lower_prefix left p, lower_prefix right q) in
            cc (e, g, lower.0 tails),
        λ h.
            let bytes : bs ≡ cs = cc (e, g, h) in
            (equal_fold_iff left right).1
              (cc (lower.1 bytes, lower_prefix left p, lower_prefix right q)),
      )

  addresses_equal_step :
      (left right : Bytes)
      → addresses_equal left right
        ≡ (is_ok (validate_address left) && is_ok (validate_address right) && equal_fold left right)
  unfolding addresses_equal
  addresses_equal_step left right = refl

  -- `AddressesEqual` holds exactly for two valid addresses whose payloads are the same bytes.
  pub addresses_equal_iff :
      (left right : Bytes)
      → (addresses_equal left right ≡ true) ↔ (
          (validate_address left ≡ ok tt)
          × (validate_address right ≡ ok tt)
          × (hex_decode (drop 4 left) ≡ hex_decode (drop 4 right)))
  addresses_equal_iff left right = (
    λ h.
        let vl =
          is_ok_lem (validate_address left) (ground (arith, addresses_equal_step left right)) in
        let vr =
          is_ok_lem (validate_address right) (ground (arith, addresses_equal_step left right)) in
        (vl, vr, (fold_iff left right vl vr).0 (ground (arith, addresses_equal_step left right))),
    λ (vl, vr, same).
        addresses_equal_step left right ∙ rw (vl, vr, (fold_iff left right vl vr).1 same),
  )

module _ ⦃c : Crypto⦄ (laws : CryptoLaws c) where
  check_payload-checksum :
      (payload : Bytes)
      → length payload ≡ 20
      → check_payload (payload ++ take 4 (c.sha256 payload)) ≡ ok tt
  unfolding check_payload
  check_payload-checksum payload n =
      let sum = take 4 (c.sha256 payload) in
      let sum-length : length sum ≡ 4 =
        omega (arith, length-take 4 (c.sha256 payload), laws.sha256_length payload) in
      let bytes = All-take (λ b. b < 256) 4 (c.sha256 payload) (laws.sha256_bytes payload) in
      rw (take_append 20 payload sum n, drop_append 20 payload sum n)
        (ground (
          arith,
          length-append payload sum,
          sum-length,
          n,
          (equal_bytes_iff sum sum bytes bytes).1 refl,
        ))

  -- The address of any public key is valid.
  pub validate_address-address_from_public_key :
      (public_key : Bytes) → validate_address (address_from_public_key public_key) ≡ ok tt
  unfolding address_from_public_key
  validate_address-address_from_public_key public_key =
      let payload = take 20 (c.sha256 public_key) in
      let sum = take 4 (c.sha256 payload) in
      let n : length payload ≡ 20 =
        omega (arith, length-take 20 (c.sha256 public_key), laws.sha256_length public_key) in
      let bytes =
        All-append (λ b. b < 256) payload sum
          (All-take (λ b. b < 256) 20 (c.sha256 public_key) (laws.sha256_bytes public_key))
          (All-take (λ b. b < 256) 4 (c.sha256 payload) (laws.sha256_bytes payload)) in
      validate_address_intro (address_prefix ++ hex_encode (payload ++ sum)) (payload ++ sum) refl
        (hex_decode-hex_encode (payload ++ sum) bytes) (check_payload-checksum payload n)
