-- ===== src/Core/Encoding/Hex.antt =====
-- Hexadecimal text of internal/core/encoding.go: decoding undoes encoding.
use entcoin.Base.{
  ℕ, ◌*◌, ◌/◌, ◌%◌, ◌<◌, ◌≡◌, refl, ap, ◌∙◌, sym, [], ◌∷◌, some, Bytes, All, length, arith, ok, err,
  invalid_hex, ◌>>=◌, >>=-eq-ok,
}
use entcoin.Core.Encoding.{
  Crypto, CryptoLaws, hex_digit, hex_encode, from_hex_char, hex_byte, hex_decode, decode_hash,
  hash_hex,
}

from_hex_char-hex_digit : (n : ℕ) → n < 16 → from_hex_char (hex_digit n) ≡ some n
from_hex_char-hex_digit n h = ground arith

hex_byte-hex_digit : (b : ℕ) → b < 256 → hex_byte (hex_digit (b / 16)) (hex_digit (b % 16)) ≡ ok b
hex_byte-hex_digit b h = ground (
  arith,
  from_hex_char-hex_digit (b / 16) (omega arith),
  from_hex_char-hex_digit (b % 16) (omega arith),
)

-- One step of the decoder.
pub hex_decode_step :
    (a b : ℕ) (v : Bytes)
    → hex_decode (a ∷ b ∷ v)
      ≡ (hex_byte a b >>= λ byte. hex_decode v >>= λ bytes. ok (byte ∷ bytes))
unfolding hex_decode
hex_decode_step a b v = refl

-- Decoding the text of some bytes gives them back.
pub hex_decode-hex_encode :
    (bs : Bytes) → All (λ b. b < 256) bs → hex_decode (hex_encode bs) ≡ ok bs
unfolding hex_encode
hex_decode-hex_encode [] h = unfold hex_decode hex_encode in refl
hex_decode-hex_encode (b ∷ bs) h =
    hex_decode_step (hex_digit (b / 16)) (hex_digit (b % 16)) (hex_encode bs)
    ∙ rw (hex_byte-hex_digit b h.0, hex_decode-hex_encode bs h.1)

pub length-hex_encode : (bs : Bytes) → length (hex_encode bs) ≡ 2 * length bs
unfolding hex_encode
length-hex_encode [] = refl
length-hex_encode (b ∷ bs) = omega (arith, length-hex_encode bs)

pub hex_decode_odd : (a : ℕ) → hex_decode (a ∷ []) ≡ err invalid_hex
unfolding hex_decode
hex_decode_odd a = refl

-- Text that decodes has two characters for each byte.
pub hex_decode-length : (v : Bytes) {bs : Bytes} → hex_decode v ≡ ok bs → length v ≡ 2 * length bs
hex_decode-length [] e = unfold hex_decode in ground arith
hex_decode-length (a ∷ []) e = cc (hex_decode_odd a)
hex_decode-length (a ∷ b ∷ v) e =
    let outer =
      >>=-eq-ok (hex_byte a b) (λ byte. hex_decode v >>= λ bytes. ok (byte ∷ bytes))
        (sym (hex_decode_step a b v) ∙ e) in
    let inner = >>=-eq-ok (hex_decode v) (λ bytes. ok (outer.0 ∷ bytes)) outer.2 in
    ground (arith, hex_decode-length v inner.1, inner.2)

module _ ⦃c : Crypto⦄ (laws : CryptoLaws c) where
  pub decode_hash-hash_hex : (x : Bytes) → decode_hash (hash_hex x) ≡ ok (c.sha256 x)
  unfolding decode_hash hash_hex
  decode_hash-hash_hex x =
      rw (hex_decode-hex_encode (c.sha256 x) (laws.sha256_bytes x))
        (ground (arith, laws.sha256_length x))

  -- Two equal hash texts are the text of one sum.
  pub hash_hex-sha256 : (x y : Bytes) → hash_hex x ≡ hash_hex y → c.sha256 x ≡ c.sha256 y
  hash_hex-sha256 x y e = cc (decode_hash-hash_hex x, decode_hash-hash_hex y, ap decode_hash e)
