-- ===== src/Core/Transaction/Identity.antt =====
-- What the identifier of internal/core/transaction.go commits to: the encoding of a transaction can
-- be read in one way only.
use entcoin.Base.{
  ◌^◌, ◌<◌, ◌≡◌, ◌≢◌, refl, sym, ap, ◌∙◌, ◌⊎◌, inl, inr, true, List, [], ◌∷◌, ◌++◌, Bytes, All,
  length, arith, append_assoc, bytes_eq_iff, bytes_eq, Bool-cases,
}
use entcoin.Core.Model.{network_id, TxInput, TxOutput, Transaction}
use entcoin.Core.Encoding.{
  Crypto, CryptoLaws, enc_bool, enc_uint32, enc_uint64, enc_bytes, enc_string, hash_hex,
}
use entcoin.Core.Encoding.Hex.{hash_hex-sha256}
use entcoin.Core.Encoding.Words.{
  enc_bool_prefix, enc_uint32_prefix, enc_uint64_prefix, enc_bytes_prefix,
}
use entcoin.Core.Transaction.{encode_inputs, encode_outputs, encode_transaction, compute_id}

-- The widths of the fields: uint32, uint64 and lengths that an int holds.
pub record InputFits (input : TxInput) : Type 0 where
  pub tx_id_fits : length input.tx_id < 2 ^ 64
  pub index_fits : input.output_index < 2 ^ 32
  pub key_fits : length input.public_key < 2 ^ 64
  pub signature_fits : length input.signature < 2 ^ 64

pub record OutputFits (output : TxOutput) : Type 0 where
  pub amount_fits : output.amount < 2 ^ 64
  pub address_fits : length output.address < 2 ^ 64

pub record TransactionFits (tx : Transaction) : Type 0 where
  pub nonce_fits : tx.nonce < 2 ^ 64
  pub inputs_count : length tx.inputs < 2 ^ 64
  pub outputs_count : length tx.outputs < 2 ^ 64
  pub inputs_fit : All InputFits tx.inputs
  pub outputs_fit : All OutputFits tx.outputs

-- A string is read back, whatever follows.
enc_string_prefix :
    (v w r s : Bytes)
    → length v < 2 ^ 64
    → length w < 2 ^ 64
    → (enc_string v ++ r) ≡ (enc_string w ++ s)
    → (v ≡ w) × (r ≡ s)
unfolding enc_string
enc_string_prefix v w r s hv hw e = enc_bytes_prefix r s v w hv hw e

-- the encoding of one input before `rest`
abbrev input_then : TxInput → Bytes → Bytes
input_then input rest =
    enc_string input.tx_id
    ++ (enc_uint32 input.output_index
        ++ (enc_bytes input.public_key ++ (enc_bytes input.signature ++ rest)))

input_prefix :
    (a b : TxInput) (r s : Bytes)
    → InputFits a
    → InputFits b
    → input_then a r ≡ input_then b s
    → (a ≡ b) × (r ≡ s)
input_prefix a b r s fa fb e =
    let (id, e₁) = enc_string_prefix a.tx_id b.tx_id _ _ fa.tx_id_fits fb.tx_id_fits e in
    let (index, e₂) =
      enc_uint32_prefix _ _ a.output_index b.output_index fa.index_fits fb.index_fits e₁ in
    let (key, e₃) = enc_bytes_prefix _ _ a.public_key b.public_key fa.key_fits fb.key_fits e₂ in
    let (signature, e₄) =
      enc_bytes_prefix r s a.signature b.signature fa.signature_fits fb.signature_fits e₃ in
    (ground (arith, id, index, key, signature), e₄)

encode_inputs_cons :
    (input : TxInput) (rest : List TxInput) (r : Bytes)
    → encode_inputs true (input ∷ rest) ++ r ≡ input_then input (encode_inputs true rest ++ r)
unfolding encode_inputs
encode_inputs_cons input rest r =
    append_assoc (enc_string input.tx_id) _ r
    ∙ ap (λ b. enc_string input.tx_id ++ b)
        (append_assoc (enc_uint32 input.output_index)
            (enc_bytes input.public_key ++ (enc_bytes input.signature ++ encode_inputs true rest)) r
          ∙ ap (λ b. enc_uint32 input.output_index ++ b)
              (append_assoc (enc_bytes input.public_key)
                  (enc_bytes input.signature ++ encode_inputs true rest) r
                ∙ ap (λ b. enc_bytes input.public_key ++ b)
                    (append_assoc (enc_bytes input.signature) (encode_inputs true rest) r)))

encode_inputs_prefix :
    (xs ys : List TxInput) (r s : Bytes)
    → length xs ≡ length ys
    → All InputFits xs
    → All InputFits ys
    → (encode_inputs true xs ++ r) ≡ (encode_inputs true ys ++ s)
    → (xs ≡ ys) × (r ≡ s)
encode_inputs_prefix [] [] r s n fx fy e = (refl, unfold encode_inputs in e)
encode_inputs_prefix [] (y ∷ ys) r s n fx fy e = absurd (omega arith)
encode_inputs_prefix (x ∷ xs) [] r s n fx fy e = absurd (omega arith)
encode_inputs_prefix (x ∷ xs) (y ∷ ys) r s n fx fy e =
    let (head, tails) =
      input_prefix x y (encode_inputs true xs ++ r) (encode_inputs true ys ++ s) fx.0 fy.0
        (sym (encode_inputs_cons x xs r) ∙ e ∙ encode_inputs_cons y ys s) in
    let (same, rest) = encode_inputs_prefix xs ys r s (omega arith) fx.1 fy.1 tails in
    (cc (head, same), rest)

encode_outputs_cons :
    (output : TxOutput) (rest : List TxOutput)
    → encode_outputs (output ∷ rest)
      ≡ enc_uint64 output.amount ++ (enc_string output.address ++ encode_outputs rest)
unfolding encode_outputs
encode_outputs_cons output rest = refl

encode_outputs_injective :
    (xs ys : List TxOutput)
    → length xs ≡ length ys
    → All OutputFits xs
    → All OutputFits ys
    → encode_outputs xs ≡ encode_outputs ys
    → xs ≡ ys
encode_outputs_injective [] [] n fx fy e = refl
encode_outputs_injective [] (y ∷ ys) n fx fy e = absurd (omega arith)
encode_outputs_injective (x ∷ xs) [] n fx fy e = absurd (omega arith)
encode_outputs_injective (x ∷ xs) (y ∷ ys) n fx fy e =
    let (amount, e₁) =
      enc_uint64_prefix _ _ x.amount y.amount fx.0.amount_fits fy.0.amount_fits
        (sym (encode_outputs_cons x xs) ∙ e ∙ encode_outputs_cons y ys) in
    let (address, e₂) =
      enc_string_prefix x.address y.address (encode_outputs xs) (encode_outputs ys)
        fx.0.address_fits fy.0.address_fits e₁ in
    let same = encode_outputs_injective xs ys (omega arith) fx.1 fy.1 e₂ in
    ground (arith, amount, address, same)

-- The same transaction up to the identifier.
pub record SameContent (t u : Transaction) : Type 0 where
  pub same_coinbase : t.coinbase ≡ u.coinbase
  pub same_nonce : t.nonce ≡ u.nonce
  pub same_inputs : t.inputs ≡ u.inputs
  pub same_outputs : t.outputs ≡ u.outputs

-- what follows the network's name, the flag and the nonce
abbrev lists_of : Transaction → Bytes
lists_of tx =
    enc_uint64 (length tx.inputs)
    ++ (encode_inputs true tx.inputs
        ++ (enc_uint64 (length tx.outputs) ++ encode_outputs tx.outputs))

encode_transaction_step :
    (tx : Transaction)
    → encode_transaction tx true
      ≡ enc_string network_id ++ (enc_bool tx.coinbase ++ (enc_uint64 tx.nonce ++ lists_of tx))
unfolding encode_transaction
encode_transaction_step tx = refl

lists_injective :
    (t u : Transaction)
    → TransactionFits t
    → TransactionFits u
    → lists_of t ≡ lists_of u
    → (t.inputs ≡ u.inputs) × (t.outputs ≡ u.outputs)
lists_injective t u ft fu e =
    let (n, e₁) =
      enc_uint64_prefix _ _ (length t.inputs) (length u.inputs) ft.inputs_count fu.inputs_count e in
    let (inputs, e₂) =
      encode_inputs_prefix t.inputs u.inputs _ _ n ft.inputs_fit fu.inputs_fit e₁ in
    let (m, e₃) =
      enc_uint64_prefix _ _ (length t.outputs) (length u.outputs) ft.outputs_count fu.outputs_count
        e₂ in
    (inputs, encode_outputs_injective t.outputs u.outputs m ft.outputs_fit fu.outputs_fit e₃)

-- The encoding with signatures determines every field but the identifier.
pub encode_transaction-injective :
    (t u : Transaction)
    → TransactionFits t
    → TransactionFits u
    → encode_transaction t true ≡ encode_transaction u true
    → SameContent t u
encode_transaction-injective t u ft fu e =
    let (_, e₁) =
      enc_string_prefix network_id network_id _ _ (omega arith) (omega arith)
        (sym (encode_transaction_step t) ∙ e ∙ encode_transaction_step u) in
    let (coinbase, e₂) = enc_bool_prefix _ _ t.coinbase u.coinbase e₁ in
    let (nonce, e₃) = enc_uint64_prefix _ _ t.nonce u.nonce ft.nonce_fits fu.nonce_fits e₂ in
    let (inputs, outputs) = lists_injective t u ft fu e₃ in
    record {
      same_coinbase = coinbase;
      same_nonce = nonce;
      same_inputs = inputs;
      same_outputs = outputs;
    }

-- `x` and `y` are different and have one SHA-256 sum.
abbrev pub Collide : Crypto → Bytes → Bytes → Type 0
Collide c x y = (x ≢ y) × (c.sha256 x ≡ c.sha256 y)

module _ ⦃c : Crypto⦄ (laws : CryptoLaws c) where
  hash_hex-injective : (x y : Bytes) → hash_hex x ≡ hash_hex y → (x ≡ y) ⊎ Collide c x y
  hash_hex-injective x y e = elim (Bool-cases (bytes_eq x y)) [
    | inl same ↦ inl ((bytes_eq_iff x y).0 same)
    | inr differ ↦ inr ((λ h. cc ((bytes_eq_iff x y).1 h, differ)), hash_hex-sha256 laws x y e)
  ]

  -- Two transactions with equal identifiers agree in every other field, signatures included, unless
  -- their own encodings are different texts with one SHA-256 sum. The fields have the widths that the
  -- source gives them.
  pub compute_id-injective :
      (t u : Transaction)
      → TransactionFits t
      → TransactionFits u
      → compute_id t ≡ compute_id u
      → SameContent t u ⊎ Collide c (encode_transaction t true) (encode_transaction u true)
  unfolding compute_id
  compute_id-injective t u ft fu e =
      elim (hash_hex-injective (encode_transaction t true) (encode_transaction u true) e) [
        | inl same ↦ inl (encode_transaction-injective t u ft fu same)
        | inr collision ↦ inr collision
      ]
