-- ===== src/Core/Coins/Spend.antt =====
-- What a regular transaction of internal/core does to the money: the checks of
-- `validateRegularTransaction` and the updates of `applyRegularTransaction`, together.
use entcoin.Base.{
  ℕ, ◌+◌, ◌-◌, ◌≤◌, ◌≡◌, refl, sym, ap, ◌∙◌, true, false, some, List, [], ◌∷◌, ltb, Result, ok,
  fail_if, or_fail, ◌>>=◌, ◌>>◌, >>=-eq-ok, fail_if-eq-ok, >>-eq-ok, or_fail-eq-ok, arith, ◌==◌,
  duplicate_input, missing_input, overspent,
}
use entcoin.Base.Map.{
  Map, get, put, remove, contains, get-remove_ne, contains-put_self, contains-put_mono,
}
use entcoin.Core.Model.{
  max_uint64, TxInput, TxOutput, Transaction, Outpoint, outpoint_eq_iff, outpoint_Eq, Utxo,
}
use entcoin.Core.Amount.{safe_add}
use entcoin.Core.Amount.Supply.{safe_add-ok}
use entcoin.Core.Encoding.{Crypto}
use entcoin.Core.Transaction.{
  outpoint_of, sum_outputs, verify_input, check_inputs, check_transaction_form,
  validate_regular_transaction,
}
use entcoin.Core.Coins.{Coins, apply_outputs_from, spend_inputs, apply_regular_transaction}
use entcoin.Core.Coins.Value.{value, value-remove, apply_outputs_from-value, sum_outputs-ok}

module _ ⦃c : Crypto⦄ where
  -- One round of the loop over the inputs.
  check_inputs_step :
      (tx : Transaction) (utxo : Utxo) (input : TxInput) (rest : List TxInput) (i : ℕ)
      (seen : Map Outpoint (Unit {0})) (total : ℕ) (t : ℕ)
      → check_inputs tx utxo (input ∷ rest) i seen total ≡ ok t
      → (previous : TxOutput) × (total' : ℕ) × (contains (outpoint_of input) seen ≡ false)
        × (get (outpoint_of input) utxo ≡ some previous)
        × (verify_input tx i input previous ≡ ok tt)
        × (safe_add total previous.amount ≡ ok total')
        × (check_inputs tx utxo rest (i + 1) (put (outpoint_of input) tt seen) total' ≡ ok t)
  unfolding check_inputs
  check_inputs_step tx utxo input rest i seen total t h =
      let outpoint = outpoint_of input in
      let last = λ (total' : ℕ). check_inputs tx utxo rest (i + 1) (put outpoint tt seen) total' in
      let verified = λ (previous : TxOutput). safe_add total previous.amount >>= last in
      let found = λ (previous : TxOutput). verify_input tx i input previous >> verified previous in
      let (new, h₁) =
        fail_if-eq-ok (contains outpoint seen) duplicate_input
          (or_fail (get outpoint utxo) missing_input >>= found) h in
      let (previous, present, h₂) = or_fail-eq-ok (get outpoint utxo) missing_input found h₁ in
      let (signed, h₃) = >>-eq-ok (verify_input tx i input previous) (verified previous) h₂ in
      let (total', added, tail) = >>=-eq-ok (safe_add total previous.amount) last h₃ in
      (previous, total', new, present, signed, added, tail)

  check_inputs_intro :
      (tx : Transaction) (utxo : Utxo) (input : TxInput) (rest : List TxInput) (i : ℕ)
      (seen : Map Outpoint (Unit {0})) (total : ℕ) (previous : TxOutput) (total' : ℕ)
      → contains (outpoint_of input) seen ≡ false
      → get (outpoint_of input) utxo ≡ some previous
      → verify_input tx i input previous ≡ ok tt
      → safe_add total previous.amount ≡ ok total'
      → check_inputs tx utxo (input ∷ rest) i seen total
        ≡ check_inputs tx utxo rest (i + 1) (put (outpoint_of input) tt seen) total'
  check_inputs_intro tx utxo input rest i seen total previous total' new present signed added =
      unfold check_inputs in rw (new, present, signed, added)

  -- An output that is listed as spent already plays no part in the rest of the loop.
  check_inputs-remove :
      (tx : Transaction) (k : Outpoint) (utxo : Utxo) (inputs : List TxInput) (i : ℕ)
      (seen : Map Outpoint (Unit {0})) (total : ℕ) (t : ℕ)
      → contains k seen ≡ true
      → check_inputs tx utxo inputs i seen total ≡ ok t
      → check_inputs tx (remove k utxo) inputs i seen total ≡ ok t
  check_inputs-remove tx k utxo [] i seen total t listed h = unfold check_inputs in h
  check_inputs-remove tx k utxo (input ∷ rest) i seen total t listed h =
      let (previous, total', new, present, signed, added, tail) =
        check_inputs_step tx utxo input rest i seen total t h in
      let other : (k == outpoint_of input) ≡ false =
        ground (arith, outpoint_eq_iff k (outpoint_of input), ap (λ o. contains o seen)) in
      check_inputs_intro tx (remove k utxo) input rest i seen total previous total' new
        (get-remove_ne k (outpoint_of input) utxo other ∙ present) signed added
      ∙ check_inputs-remove tx k utxo rest (i + 1) (put (outpoint_of input) tt seen) total' t
          (contains-put_mono (outpoint_of input) k tt seen listed) tail

  check_inputs_nil :
      (tx : Transaction) (utxo : Utxo) (i : ℕ) (seen : Map Outpoint (Unit {0})) (total t : ℕ)
      → check_inputs tx utxo [] i seen total ≡ ok t
      → total ≡ t
  unfolding check_inputs
  check_inputs_nil tx utxo i seen total t h = ground arith

  -- The accepted inputs are worth what their removal takes away.
  check_inputs-value :
      (tx : Transaction) (coins : Coins) (inputs : List TxInput) (i : ℕ)
      (seen : Map Outpoint (Unit {0})) (total : ℕ) (t : ℕ)
      → total ≤ max_uint64
      → check_inputs tx coins.utxo inputs i seen total ≡ ok t
      → value (spend_inputs inputs coins).utxo + t ≡ value coins.utxo + total
  unfolding spend_inputs
  check_inputs-value tx coins [] i seen total t b h =
      ground (arith, check_inputs_nil tx coins.utxo i seen total t h)
  check_inputs-value tx coins (input ∷ rest) i seen total t b h =
      let outpoint = outpoint_of input in
      let (previous, total', new, present, signed, added, tail) =
        check_inputs_step tx coins.utxo input rest i seen total t h in
      let sum = safe_add-ok total previous.amount b added in
      let coins' : Coins = record {
        utxo = remove outpoint coins.utxo;
        origins = remove outpoint coins.origins;
      } in
      omega (
        arith,
        sum,
        value-remove outpoint coins.utxo previous present,
        check_inputs-value tx coins' rest (i + 1) (put outpoint tt seen) total' t sum.1 (
            check_inputs-remove tx outpoint coins.utxo rest (i + 1) (put outpoint tt seen) total' t
              (contains-put_self outpoint tt seen) tail),
      )

  abbrev fee_of : List TxOutput → ℕ → Result ℕ
  fee_of outputs input_total = sum_outputs outputs >>= λ output_total.
      fail_if (ltb input_total output_total) overspent >> ok (input_total - output_total)

  fee_of-ok :
      (outputs : List TxOutput) (input_total fee : ℕ)
      → fee_of outputs input_total ≡ ok fee
      → (output_total : ℕ) × (sum_outputs outputs ≡ ok output_total)
        × (fee + output_total ≡ input_total)
  fee_of-ok outputs input_total fee h =
      let rest = λ (output_total : ℕ).
        fail_if (ltb input_total output_total) overspent >> ok (input_total - output_total) in
      let (output_total, summed, h') = >>=-eq-ok (sum_outputs outputs) rest h in
      let (covered, paid) =
        fail_if-eq-ok (ltb input_total output_total) overspent (ok (input_total - output_total))
          h' in
      (output_total, summed, ground arith)

  validate_regular_transaction_step :
      (tx : Transaction) (utxo : Utxo)
      → validate_regular_transaction tx utxo ≡ (
          check_transaction_form tx
          >> (check_inputs tx utxo tx.inputs 0 [] 0 >>= fee_of tx.outputs))
  unfolding validate_regular_transaction
  validate_regular_transaction_step tx utxo = refl

  -- What a fee stands for.
  pub validate_regular_transaction-ok :
      (tx : Transaction) (utxo : Utxo) (fee : ℕ)
      → validate_regular_transaction tx utxo ≡ ok fee
      → (input_total output_total : ℕ) × (check_transaction_form tx ≡ ok tt)
        × (check_inputs tx utxo tx.inputs 0 [] 0 ≡ ok input_total)
        × (sum_outputs tx.outputs ≡ ok output_total)
        × (fee + output_total ≡ input_total)
  validate_regular_transaction-ok tx utxo fee h =
      let priced = check_inputs tx utxo tx.inputs 0 [] 0 >>= fee_of tx.outputs in
      let (form, h₁) =
        >>-eq-ok (check_transaction_form tx) priced
          (sym (validate_regular_transaction_step tx utxo) ∙ h) in
      let (input_total, checked, h₂) =
        >>=-eq-ok (check_inputs tx utxo tx.inputs 0 [] 0) (fee_of tx.outputs) h₁ in
      let (output_total, summed, balance) = fee_of-ok tx.outputs input_total fee h₂ in
      (input_total, output_total, form, checked, summed, balance)

  apply_regular_transaction_step :
      (tx : Transaction) (coins : Coins) (height : ℕ)
      → apply_regular_transaction tx coins height
        ≡ apply_outputs_from 0 tx.id tx.outputs height false (spend_inputs tx.inputs coins)
  unfolding apply_regular_transaction
  apply_regular_transaction_step tx coins height = refl

  -- A regular transaction takes exactly its fee out of the unspent outputs.
  pub apply_regular_transaction-value :
      (tx : Transaction) (coins : Coins) (height fee : ℕ) {coins' : Coins}
      → validate_regular_transaction tx coins.utxo ≡ ok fee
      → apply_regular_transaction tx coins height ≡ ok coins'
      → value coins'.utxo + fee ≡ value coins.utxo
  apply_regular_transaction-value tx coins height fee v h =
      let (input_total, output_total, form, checked, summed, balance) =
        validate_regular_transaction-ok tx coins.utxo fee v in
      let spent = spend_inputs tx.inputs coins in
      omega (
        arith,
        check_inputs-value tx coins tx.inputs 0 [] 0 input_total (omega arith) checked,
        sum_outputs-ok tx.outputs summed,
        apply_outputs_from-value 0 tx.id tx.outputs height false spent
            (sym (apply_regular_transaction_step tx coins height) ∙ h),
      )
