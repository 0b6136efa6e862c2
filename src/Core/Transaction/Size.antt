-- ===== src/Core/Transaction/Size.antt =====
-- The size of a coinbase of internal/core/transaction.go: at most one output, of a fixed address length.
use entcoin.Base.{
  ℕ, ◌+◌, ◌≤◌, ◌≡◌, refl, subst, Bool, true, false, ◌||◌, not, [], ◌∷◌, Bytes, length, arith,
  Result, ok, >>=-eq-ok, >>-eq-ok, fail_if-eq-ok, ok_injective, ltb, eqb, length-append,
  if◌then◌else◌, bytes_eq, take,
}
use entcoin.Core.Model.{Transaction}
use entcoin.Core.Encoding.{
  Crypto, enc_uint8, enc_uint32, enc_uint64, enc_bool, enc_bytes, enc_string,
}
use entcoin.Core.Address.{validate_address, address_prefix}
use entcoin.Core.Transaction.{
  encode_inputs, encode_outputs, encode_transaction, encoded_size, new_coinbase,
}

empty_coinbase_size :
    (id : Bytes) (nonce : ℕ)
    → encoded_size (record { id = id; coinbase = true; nonce = nonce; inputs = []; outputs = [] })
      ≡ 51
unfolding encoded_size encode_transaction encode_inputs encode_outputs enc_string enc_bytes
    enc_uint64 enc_uint32 enc_bool enc_uint8
empty_coinbase_size id nonce = refl

paid_coinbase_size :
    (id : Bytes) (nonce amount : ℕ) (address : Bytes)
    → encoded_size (record {
      id = id;
      coinbase = true;
      nonce = nonce;
      inputs = [];
      outputs = record { amount = amount; address = address } ∷ [];
    })
      ≡ 67 + length address
unfolding encoded_size encode_transaction encode_inputs encode_outputs enc_string enc_bytes
    enc_uint64 enc_uint32 enc_bool enc_uint8
paid_coinbase_size id nonce amount address = omega (arith, length-append address [])

first_holds : (a b : Bool) → (not a || b) ≡ false → a ≡ true
first_holds a b h = ground (arith, h)

eqb_eq : (n m : ℕ) → eqb n m ≡ true → n ≡ m
eqb_eq n m h = ground (arith, h)

module _ ⦃c : Crypto⦄ where
  length-validate_address :
      (address : Bytes) → validate_address address ≡ ok tt → length address ≡ 52
  unfolding validate_address
  length-validate_address address e =
      let (shape, _) =
        fail_if-eq-ok
          (not (eqb (length address) 52) || not (bytes_eq (take 4 address) address_prefix)) _ _ e in
      eqb_eq (length address) 52 (
        first_holds (eqb (length address) 52) (not (bytes_eq (take 4 address) address_prefix))
          shape)

  coinbase_outputs :
      (address : Bytes) (nonce amount : ℕ) (paid : Bool) (id : Bytes)
      → length address ≡ 52
      → encoded_size (record {
        id = id;
        coinbase = true;
        nonce = nonce;
        inputs = [];
        outputs = if paid then record { amount = amount; address = address } ∷ [] else [];
      })
        ≤ 119
  coinbase_outputs address nonce amount true id h =
      omega (arith, paid_coinbase_size id nonce amount address)
  coinbase_outputs address nonce amount false id h = omega (arith, empty_coinbase_size id nonce)

  -- A coinbase has at most 119 bytes.
  pub encoded_size-new_coinbase :
      (address : Bytes) (height amount : ℕ) (random : Result ℕ) {t : Transaction}
      → new_coinbase address height amount random ≡ ok t
      → encoded_size t ≤ 119
  unfolding new_coinbase
  encoded_size-new_coinbase address height amount random e =
      let (valid, e₁) = >>-eq-ok (validate_address address) _ e in
      let (nonce, _, e₂) = >>=-eq-ok random _ e₁ in
      subst (λ t. encoded_size t ≤ 119) (ok_injective e₂)
        (coinbase_outputs address _ amount (ltb 0 amount) _ (length-validate_address address valid))

  -- A coinbase that pays one unit has 119 bytes.
  pub encoded_size-reserve :
      (address : Bytes) (height : ℕ) (random : Result ℕ) {t : Transaction}
      → new_coinbase address height 1 random ≡ ok t
      → encoded_size t ≡ 119
  unfolding new_coinbase
  encoded_size-reserve address height random e =
      let (valid, e₁) = >>-eq-ok (validate_address address) _ e in
      let (nonce, _, e₂) = >>=-eq-ok random _ e₁ in
      subst (λ t. encoded_size t ≡ 119) (ok_injective e₂)
        (omega (arith, paid_coinbase_size _ _ 1 address, length-validate_address address valid))
