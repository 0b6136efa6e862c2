-- ===== src/Core/Address.antt =====
-- internal/core/wallet.go: addresses and the consistency of a wallet. Key generation is not
-- modelled; the curve is `Crypto`'s.
pub mod Bits
pub mod Laws
use Prim.Native.Nat.{bit_or, bit_xor}
use entcoin.Base.{
  ℕ, zero, suc, ◌+◌, ◌*◌, ◌≡◌, refl, Bool, true, false, ◌&&◌, ◌||◌, not, List, [], ◌∷◌, ◌++◌, map,
  Bytes, length, take, drop, ltb, leb, eqb, ◌==◌, bytes_eq, Result, ok, err, fail_if, is_ok, ◌>>=◌,
  ◌>>◌, invalid_address, invalid_address_checksum, private_key, wallet_public_key, wallet_address,
  if◌then◌else◌,
}
use entcoin.Core.Encoding.{Crypto, hex_encode, hex_decode}

-- `different |= a[i] ^ b[i]`
unfoldable pub difference : Bytes → Bytes → ℕ → ℕ
difference [] b different = different
difference (x ∷ a) [] different = different
difference (x ∷ a) (y ∷ b) different = difference a b (bit_or different (bit_xor x y))

unfoldable pub equal_bytes : Bytes → Bytes → Bool
unfolding difference
equal_bytes a b = if not (eqb (length a) (length b)) then false else eqb (difference a b 0) 0

-- "ent1"
abbrev pub address_prefix : Bytes
address_prefix = b'e' ∷ b'n' ∷ b't' ∷ b'1' ∷ []

abbrev pub to_lower : ℕ → ℕ
to_lower c = if leb b'A' c && leb c b'Z' then c + 32 else c

-- `strings.EqualFold` on ASCII texts; it is only asked about validated addresses
unfoldable pub equal_fold : Bytes → Bytes → Bool
unfolding bytes_eq
equal_fold s t = bytes_eq (map to_lower s) (map to_lower t)

-- The number that big-endian bytes write: `new(big.Int).SetBytes`.
unfoldable pub be_value : ℕ → Bytes → ℕ
be_value acc [] = acc
be_value acc (b ∷ bs) = be_value (acc * 256 + b) bs

-- the order of P-256, `curve.Params().N`
abbrev pub curve_order : ℕ
curve_order = 0xffffffff00000000ffffffffffffffffbce6faada7179e84f3b9cac2fc632551

pub record Wallet : Type 0 where
  pub private_key : Bytes
  pub public_key : Bytes
  pub address : Bytes

module _ ⦃c : Crypto⦄ where
  unfoldable pub address_from_public_key : Bytes → Bytes
  unfolding hex_encode
  address_from_public_key public_key =
      let payload = take 20 (c.sha256 public_key) in
      address_prefix ++ hex_encode (payload ++ take 4 (c.sha256 payload))

  unfoldable pub check_payload : Bytes → Result (Unit {0})
  unfolding equal_bytes
  check_payload decoded = do
    fail_if (not (eqb (length decoded) 24)) invalid_address
    fail_if (not (equal_bytes (drop 20 decoded) (take 4 (c.sha256 (take 20 decoded)))))
        invalid_address_checksum

  abbrev decoded_payload : Result Bytes → Result (Unit {0})
  decoded_payload (err e) = err invalid_address
  decoded_payload (ok decoded) = check_payload decoded

  unfoldable pub validate_address : Bytes → Result (Unit {0})
  unfolding hex_decode check_payload bytes_eq
  validate_address address = do
    fail_if (not (eqb (length address) 52) || not (bytes_eq (take 4 address) address_prefix))
        invalid_address
    decoded_payload (hex_decode (drop 4 address))

  unfoldable pub addresses_equal : Bytes → Bytes → Bool
  unfolding validate_address equal_fold
  addresses_equal left right =
      is_ok (validate_address left) && is_ok (validate_address right) && equal_fold left right

  abbrev key_point : Result Bytes → Result (ℕ × (ℕ × ℕ))
  key_point (err e) = err private_key
  key_point (ok bytes) =
      let d = be_value 0 bytes in
      if not (eqb (length bytes) 32) || eqb d 0 || leb curve_order d
      then err private_key
      else ok (d, c.base_mult bytes)

  -- `wallet.privateKey()`: the scalar and its point
  unfoldable pub wallet_private_key : Wallet → Result (ℕ × (ℕ × ℕ))
  unfolding hex_decode be_value
  wallet_private_key w = key_point (hex_decode w.private_key)

  unfoldable pub wallet_validate : Wallet → Result (Unit {0})
  unfolding wallet_private_key validate_address address_from_public_key
  wallet_validate w = do
    key ← wallet_private_key w
    let public_key = c.marshal_point key.1
    fail_if (not (bytes_eq (hex_encode public_key) w.public_key)) wallet_public_key
    fail_if (not (bytes_eq (address_from_public_key public_key) w.address)) wallet_address
    validate_address w.address

  unfoldable pub wallet_public_key_bytes : Wallet → Result Bytes
  unfolding wallet_validate
  wallet_public_key_bytes w = do wallet_validate w; hex_decode w.public_key
