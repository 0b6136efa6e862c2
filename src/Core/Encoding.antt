-- ===== src/Core/Encoding.antt =====
-- internal/core/encoding.go: the binary encoder, hexadecimal text and hashes. Each method of the
-- encoder is the bytes that it appends to the buffer. SHA-256 and the elliptic curve are
-- parameters: a value of `Crypto`, with what the code relies on in `CryptoLaws`.
pub mod Words
pub mod Hex
use entcoin.Base.{
  ℕ, ◌+◌, ◌-◌, ◌*◌, ◌/◌, ◌%◌, ◌^◌, ◌<◌, ◌≡◌, Bool, true, false, ◌&&◌, Option, none, some, List, [],
  ◌∷◌, ◌++◌, All, Bytes, length, ltb, leb, eqb, Result, ok, err, invalid_hex, invalid_hash, fail_if,
  ◌>>=◌, ◌>>◌, not, if◌then◌else◌,
}
use entcoin.Base.Int.{ℤ}

pub record Crypto : Type 0 where
  -- `sha256.Sum256`
  pub sha256 : Bytes → Bytes
  -- `elliptic.Unmarshal` on P-256; `none` is a nil coordinate
  pub unmarshal_point : Bytes → Option (ℕ × ℕ)
  -- `elliptic.Marshal`
  pub marshal_point : ℕ × ℕ → Bytes
  -- `ScalarBaseMult` on P-256
  pub base_mult : Bytes → ℕ × ℕ
  -- `asn1.Unmarshal` into R, S, with the bytes left over
  pub unmarshal_signature : Bytes → Option (ℤ × ℤ × Bytes)
  -- `ecdsa.Verify`
  pub verify : ℕ × ℕ → Bytes → ℤ → ℤ → Bool

-- A SHA-256 sum is 32 bytes.
pub record CryptoLaws (c : Crypto) : Type 0 where
  pub sha256_length : (x : Bytes) → length (c.sha256 x) ≡ 32
  pub sha256_bytes : (x : Bytes) → All (λ b. b < 256) (c.sha256 x)

unfoldable pub enc_uint8 : ℕ → Bytes
enc_uint8 v = (v % 256) ∷ []

unfoldable pub enc_bool : Bool → Bytes
unfolding enc_uint8
enc_bool value = if value then enc_uint8 1 else enc_uint8 0

-- `binary.Write` in big-endian order
unfoldable pub enc_uint32 : ℕ → Bytes
enc_uint32 v = (v / 2 ^ 24 % 256) ∷ (v / 2 ^ 16 % 256) ∷ (v / 2 ^ 8 % 256) ∷ (v % 256) ∷ []

unfoldable pub enc_uint64 : ℕ → Bytes
unfolding enc_uint32
enc_uint64 v = enc_uint32 (v / 2 ^ 32) ++ enc_uint32 v

-- the two's complement of an int64
unfoldable pub to_uint64 : ℤ → ℕ
to_uint64 (ℤ.pos n) = n % 2 ^ 64
to_uint64 (ℤ.negsuc n) = 2 ^ 64 - 1 - n % 2 ^ 64

unfoldable pub enc_int64 : ℤ → Bytes
unfolding enc_uint64 to_uint64
enc_int64 v = enc_uint64 (to_uint64 v)

unfoldable pub enc_bytes : Bytes → Bytes
unfolding enc_uint64
enc_bytes value = enc_uint64 (length value) ++ value

unfoldable pub enc_string : Bytes → Bytes
unfolding enc_bytes
enc_string value = enc_bytes value

abbrev pub hex_digit : ℕ → ℕ
hex_digit n = if ltb n 10 then b'0' + n else b'a' + (n - 10)

-- `hex.EncodeToString`
unfoldable pub hex_encode : Bytes → Bytes
hex_encode [] = []
hex_encode (b ∷ bs) = hex_digit (b / 16) ∷ hex_digit (b % 16) ∷ hex_encode bs

abbrev pub from_hex_char : ℕ → Option ℕ
from_hex_char c =
    if leb b'0' c && leb c b'9'
    then some (c - b'0')
    else if leb b'a' c && leb c b'f'
    then some (c - b'a' + 10)
    else if leb b'A' c && leb c b'F'
    then some (c - b'A' + 10)
    else none

abbrev pub hex_byte : ℕ → ℕ → Result ℕ
hex_byte a b = elim (from_hex_char a) [
  | none ↦ err invalid_hex
  | some h ↦ elim (from_hex_char b) [ none ↦ err invalid_hex | some l ↦ ok (h * 16 + l) ]
]

-- `hex.DecodeString`
unfoldable pub hex_decode : Bytes → Result Bytes
hex_decode [] = ok []
hex_decode (a ∷ []) = err invalid_hex
hex_decode (a ∷ b ∷ rest) = do byte ← hex_byte a b; bytes ← hex_decode rest; ok (byte ∷ bytes)

abbrev pub check_hash_size : Result Bytes → Result Bytes
check_hash_size (err e) = err invalid_hash
check_hash_size (ok decoded) = if eqb (length decoded) 32 then ok decoded else err invalid_hash

unfoldable pub decode_hash : Bytes → Result Bytes
unfolding hex_decode
decode_hash value = check_hash_size (hex_decode value)

module _ ⦃c : Crypto⦄ where
  unfoldable pub hash_hex : Bytes → Bytes
  unfolding hex_encode
  hash_hex value = hex_encode (c.sha256 value)
