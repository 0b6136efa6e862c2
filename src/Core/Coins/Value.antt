-- ===== src/Core/Coins/Value.antt =====
-- The money in the unspent outputs of internal/core/chain.go, under each change of them.
use entcoin.Base.{
  ℕ, ◌+◌, ◌%◌, ◌^◌, ◌≤◌, ◌≡◌, refl, Bool, false, some, List, [], ◌∷◌, Bytes, eqb, ok, ◌>>=◌, ◌>>◌,
  >>=-eq-ok, fail_if-eq-ok, arith, output_amount, duplicate_output,
}
use entcoin.Base.Map.{get, put, remove, contains}
use entcoin.Core.Model.{max_uint64, TxOutput, Outpoint, outpoint_Eq, Utxo}
use entcoin.Core.Amount.{safe_add}
use entcoin.Core.Amount.Supply.{safe_add-ok}
use entcoin.Core.Encoding.{Crypto}
use entcoin.Core.Address.{validate_address}
use entcoin.Core.Transaction.{sum_outputs_from, sum_outputs}
use entcoin.Core.Coins.{Coins, apply_outputs_from}

-- All the money in a set of unspent outputs.
unfoldable pub value : Utxo → ℕ
value [] = 0
value ((_, output) ∷ utxo) = output.amount + value utxo

-- All the money in some outputs.
unfoldable pub outputs_value : List TxOutput → ℕ
outputs_value [] = 0
outputs_value (output ∷ rest) = output.amount + outputs_value rest

pub value-empty : value [] ≡ 0
unfolding value
value-empty = refl

pub value-put :
    (k : Outpoint) (v : TxOutput) (m : Utxo)
    → contains k m ≡ false
    → value (put k v m) ≡ value m + v.amount
unfolding value put contains
value-put k v [] h = omega arith
value-put k v ((j, w) ∷ m) h = ground (arith, value-put k v m)

pub value-remove :
    (k : Outpoint) (m : Utxo) (v : TxOutput)
    → get k m ≡ some v
    → value (remove k m) + v.amount ≡ value m
unfolding value remove get
value-remove k [] v h = cc
value-remove k ((j, w) ∷ m) v h = ground (arith, value-remove k m v)

-- New outputs add their money.
pub apply_outputs_from-value :
    (index : ℕ) (id : Bytes) (outputs : List TxOutput) (height : ℕ) (coinbase : Bool)
    (coins : Coins) {coins' : Coins}
    → apply_outputs_from index id outputs height coinbase coins ≡ ok coins'
    → value coins'.utxo ≡ value coins.utxo + outputs_value outputs
unfolding apply_outputs_from outputs_value
apply_outputs_from-value index id [] height coinbase coins h = ground arith
apply_outputs_from-value index id (output ∷ rest) height coinbase coins {coins'} h =
    let outpoint : Outpoint = record { tx_id = id; index = index % 2 ^ 32 } in
    let next : Coins = record {
      utxo = put outpoint output coins.utxo;
      origins =
          put outpoint (record { created_height = height; coinbase = coinbase }) coins.origins;
    } in
    let (new, tail) =
      fail_if-eq-ok (contains outpoint coins.utxo) duplicate_output
        (apply_outputs_from (index + 1) id rest height coinbase next) h in
    omega (
      arith,
      apply_outputs_from-value (index + 1) id rest height coinbase next tail,
      value-put outpoint output coins.utxo new,
    )

module _ ⦃c : Crypto⦄ where
  -- `sumOutputs` adds without wrapping.
  pub sum_outputs_from-ok :
      (total : ℕ) (outputs : List TxOutput) {t : ℕ}
      → total ≤ max_uint64
      → sum_outputs_from total outputs ≡ ok t
      → (t ≡ total + outputs_value outputs) × (t ≤ max_uint64)
  unfolding sum_outputs_from outputs_value
  sum_outputs_from-ok total [] b h = ground arith
  sum_outputs_from-ok total (output ∷ rest) {t} b h =
      let (_, after_amount) =
        fail_if-eq-ok (eqb output.amount 0) output_amount
          (validate_address output.address
            >> (safe_add total output.amount >>= λ total'. sum_outputs_from total' rest))
          h in
      let (_, _, after_address) =
        >>=-eq-ok (validate_address output.address)
          (λ _. safe_add total output.amount >>= λ total'. sum_outputs_from total' rest)
          after_amount in
      let (total', added, tail) =
        >>=-eq-ok (safe_add total output.amount) (λ total'. sum_outputs_from total' rest)
          after_address in
      let sum = safe_add-ok total output.amount b added in
      omega (arith, sum, sum_outputs_from-ok total' rest sum.1 tail)

  pub sum_outputs-ok :
      (outputs : List TxOutput) {t : ℕ}
      → sum_outputs outputs ≡ ok t
      → (t ≡ outputs_value outputs) × (t ≤ max_uint64)
  unfolding sum_outputs
  sum_outputs-ok outputs h = omega (arith, sum_outputs_from-ok 0 outputs (omega arith) h)
