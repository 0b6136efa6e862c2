-- ===== src/Core/Transaction.antt =====
-- internal/core/transaction.go: the encoding of a transaction and the rules that need no chain.
pub mod Identity
pub mod Size
use Prim.Native.Nat.{bit_xor}
use entcoin.Base.{
  ℕ, suc, ◌+◌, ◌-◌, ◌*◌, ◌/◌, ◌^◌, Bool, true, false, ◌&&◌, ◌||◌, not, Option, none, some, List, [],
  ◌∷◌, ◌++◌, Bytes, length, ltb, leb, eqb, ◌==◌, bytes_eq, Result, ok, err, fail_if, or_fail, is_ok,
  check_each, ◌>>=◌, ◌>>◌, missing_inputs_outputs, input_output_limit, input_hash, input_sizes,
  output_amount, transaction_size, transaction_id, duplicate_input, missing_input, not_owner,
  overspent, not_coinbase, no_reward, coinbase_limits, coinbase_id, coinbase_reward, if◌then◌else◌,
  Error,
}
use entcoin.Base.Int.{ℤ, pos, leb_ℤ, ltb_ℤ}
use entcoin.Base.Map.{Map, get, put, contains}
use entcoin.Core.Model.{
  network_id, max_transaction_bytes, max_transaction_inputs, max_transaction_outputs, TxInput,
  TxOutput, Transaction, Outpoint, outpoint_eq, outpoint_Eq, Utxo,
}
use entcoin.Core.Amount.{safe_add}
use entcoin.Core.Encoding.{
  Crypto, enc_bool, enc_uint32, enc_uint64, enc_bytes, enc_string, hex_decode, decode_hash,
  hash_hex,
}
use entcoin.Core.Address.{curve_order, address_from_public_key, validate_address, addresses_equal}

unfoldable pub encode_inputs : Bool → List TxInput → Bytes
unfolding enc_string enc_uint32
encode_inputs include_signatures [] = []
encode_inputs include_signatures (input ∷ rest) =
    enc_string input.tx_id
    ++ (enc_uint32 input.output_index
        ++ (enc_bytes input.public_key
            ++ ((if include_signatures then enc_bytes input.signature else [])
                ++ encode_inputs include_signatures rest)))

unfoldable pub encode_outputs : List TxOutput → Bytes
unfolding enc_string
encode_outputs [] = []
encode_outputs (output ∷ rest) =
    enc_uint64 output.amount ++ (enc_string output.address ++ encode_outputs rest)

unfoldable pub encode_transaction : Transaction → Bool → Bytes
unfolding encode_inputs encode_outputs enc_bool
encode_transaction tx include_signatures =
    enc_string network_id
    ++ (enc_bool tx.coinbase
        ++ (enc_uint64 tx.nonce
            ++ (enc_uint64 (length tx.inputs)
                ++ (encode_inputs include_signatures tx.inputs
                    ++ (enc_uint64 (length tx.outputs) ++ encode_outputs tx.outputs)))))

unfoldable pub encoded_size : Transaction → ℕ
unfolding encode_transaction
encoded_size tx = length (encode_transaction tx true)

abbrev pub outpoint_of : TxInput → Outpoint
outpoint_of input = record { tx_id = input.tx_id; index = input.output_index }

-- `hash, _ := hex.DecodeString(…)`
abbrev or_empty : Result Bytes → Bytes
or_empty (ok bytes) = bytes
or_empty (err e) = []

module _ ⦃c : Crypto⦄ where
  unfoldable pub compute_id : Transaction → Bytes
  unfolding encode_transaction hash_hex
  compute_id tx = hash_hex (encode_transaction tx true)

  unfoldable pub signing_hash : Transaction → ℕ → TxOutput → Bytes
  unfolding encode_transaction hash_hex hex_decode
  signing_hash tx input_index previous_output = or_empty (
      hex_decode (
        hash_hex (
          encode_transaction tx false
          ++ (enc_uint64 input_index
              ++ (enc_uint64 previous_output.amount ++ enc_string previous_output.address)))))

  unfoldable pub sum_outputs_from : ℕ → List TxOutput → Result ℕ
  unfolding validate_address safe_add
  sum_outputs_from total [] = ok total
  sum_outputs_from total (output ∷ rest) = do
    fail_if (eqb output.amount 0) output_amount
    validate_address output.address
    total' ← safe_add total output.amount
    sum_outputs_from total' rest

  unfoldable pub sum_outputs : List TxOutput → Result ℕ
  unfolding sum_outputs_from
  sum_outputs outputs = sum_outputs_from 0 outputs

  unfoldable pub check_input_shape : TxInput → Result (Unit {0})
  unfolding decode_hash
  check_input_shape input = do
    fail_if (not (is_ok (decode_hash input.tx_id))) input_hash
    fail_if
        (not (eqb (length input.public_key) 65)
          || (eqb (length input.signature) 0 || ltb 80 (length input.signature)))
        input_sizes

  -- R, S and the bytes behind them, as `asn1.Unmarshal` gave them
  unfoldable pub signature_accepted : Option (ℤ × ℤ × Bytes) → ℕ × ℕ → Bytes → Bool
  signature_accepted none key hash = false
  signature_accepted (some (r, s, rest)) key hash =
      eqb (length rest) 0
      && (not (leb_ℤ r (pos 0))
          && (not (leb_ℤ s (pos 0))
              && (not (ltb_ℤ (pos (curve_order / 2)) s) && c.verify key hash r s)))

  -- the owner, the key and the signature of one input
  unfoldable pub verify_input : Transaction → ℕ → TxInput → TxOutput → Result (Unit {0})
  unfolding addresses_equal address_from_public_key signing_hash signature_accepted
  verify_input tx i input previous_output = do
    fail_if
        (not (addresses_equal (address_from_public_key input.public_key) previous_output.address))
        not_owner
    key ← or_fail (c.unmarshal_point input.public_key) Error.public_key
    fail_if
        (not (
          signature_accepted (c.unmarshal_signature input.signature) key
            (signing_hash tx i previous_output)))
        Error.signature

  -- the loop over the inputs, from number `i`
  unfoldable pub check_inputs :
      Transaction → Utxo → List TxInput → ℕ → Map Outpoint (Unit {0}) → ℕ → Result ℕ
  unfolding verify_input safe_add get put contains outpoint_eq
  check_inputs tx utxo [] i seen input_total = ok input_total
  check_inputs tx utxo (input ∷ rest) i seen input_total = do
    let outpoint = outpoint_of input
    fail_if (contains outpoint seen) duplicate_input
    previous_output ← or_fail (get outpoint utxo) missing_input
    verify_input tx i input previous_output
    input_total' ← safe_add input_total previous_output.amount
    check_inputs tx utxo rest (i + 1) (put outpoint tt seen) input_total'

  -- the checks that read no unspent output
  unfoldable pub check_transaction_form : Transaction → Result (Unit {0})
  unfolding check_each check_input_shape sum_outputs encoded_size compute_id bytes_eq
  check_transaction_form tx = do
    fail_if (tx.coinbase || (eqb (length tx.inputs) 0 || eqb (length tx.outputs) 0))
        missing_inputs_outputs
    fail_if
        (ltb max_transaction_inputs (length tx.inputs)
          || ltb max_transaction_outputs (length tx.outputs))
        input_output_limit
    check_each check_input_shape tx.inputs
    _ ← sum_outputs tx.outputs
    fail_if (ltb max_transaction_bytes (encoded_size tx)) transaction_size
    fail_if (not (bytes_eq tx.id (compute_id tx))) transaction_id

  -- The result is the fee.
  unfoldable pub validate_regular_transaction : Transaction → Utxo → Result ℕ
  unfolding check_transaction_form check_inputs
  validate_regular_transaction tx utxo = do
    check_transaction_form tx
    input_total ← check_inputs tx utxo tx.inputs 0 [] 0
    output_total ← sum_outputs tx.outputs
    fail_if (ltb input_total output_total) overspent
    ok (input_total - output_total)

  unfoldable pub validate_coinbase : Transaction → ℕ → Result (Unit {0})
  unfolding encoded_size compute_id sum_outputs bytes_eq
  validate_coinbase tx maximum = do
    fail_if (not tx.coinbase || not (eqb (length tx.inputs) 0)) not_coinbase
    fail_if (eqb (length tx.outputs) 0 && not (eqb maximum 0)) no_reward
    fail_if (ltb 1 (length tx.outputs) || ltb max_transaction_bytes (encoded_size tx))
        coinbase_limits
    fail_if (not (bytes_eq tx.id (compute_id tx))) coinbase_id
    total ← sum_outputs tx.outputs
    fail_if (not (eqb total maximum)) coinbase_reward

  abbrev with_id : Transaction → Transaction
  with_id tx = record tx { id = compute_id tx }

  -- `random` is what `randomUint64` read.
  unfoldable pub new_coinbase : Bytes → ℕ → ℕ → Result ℕ → Result Transaction
  unfolding validate_address compute_id
  new_coinbase address height amount random = do
    validate_address address
    nonce ← random
    ok (
        with_id (record {
          id = [];
          coinbase = true;
          nonce = bit_xor nonce height;
          inputs = [];
          outputs = if ltb 0 amount then record { amount = amount; address = address } ∷ [] else [];
        }))
