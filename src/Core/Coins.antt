-- ===== src/Core/Coins.antt =====
-- internal/core/chain.go: unspent outputs with their origins, and what a transaction does to them.
pub mod Value
pub mod Spend
use entcoin.Base.{
  ℕ, suc, ◌+◌, ◌-◌, ◌^◌, ◌%◌, Bool, true, false, ◌&&◌, ◌||◌, not, Option, none, some, List, [], ◌∷◌,
  Bytes, length, ltb, leb, Result, ok, err, fail_if, or_fail, ◌>>=◌, ◌>>◌, duplicate_output,
  no_origin, immature, if◌then◌else◌,
}
use entcoin.Base.Map.{Map, get, put, remove, contains}
use entcoin.Core.Model.{
  coinbase_maturity, coinbase_maturity_activation_height, TxInput, TxOutput, Transaction, Outpoint,
  outpoint_eq, outpoint_Eq, Utxo,
}
use entcoin.Core.Amount.{safe_add}
use entcoin.Core.Encoding.{Crypto}
use entcoin.Core.Address.{addresses_equal}
use entcoin.Core.Transaction.{outpoint_of}

pub record OutputOrigin : Type 0 where
  pub created_height : ℕ
  pub coinbase : Bool

-- The two maps that the chain changes together.
pub record Coins : Type 0 where
  pub utxo : Utxo
  pub origins : Map Outpoint OutputOrigin

-- `outpoint` is `Outpoint{TxID: tx.ID, Index: uint32(index)}`
unfoldable pub apply_outputs_from : ℕ → Bytes → List TxOutput → ℕ → Bool → Coins → Result Coins
unfolding contains put outpoint_eq
apply_outputs_from index id [] height coinbase coins = ok coins
apply_outputs_from index id (output ∷ rest) height coinbase coins = do
  let outpoint : Outpoint = record { tx_id = id; index = index % 2 ^ 32 }
  fail_if (contains outpoint coins.utxo) duplicate_output
  apply_outputs_from (index + 1) id rest height coinbase (record {
    utxo = put outpoint output coins.utxo;
    origins = put outpoint (record { created_height = height; coinbase = coinbase }) coins.origins;
  })

unfoldable pub apply_outputs : Transaction → Coins → ℕ → Bool → Result Coins
unfolding apply_outputs_from
apply_outputs tx coins height coinbase = apply_outputs_from 0 tx.id tx.outputs height coinbase coins

unfoldable pub spend_inputs : List TxInput → Coins → Coins
unfolding remove outpoint_eq
spend_inputs [] coins = coins
spend_inputs (input ∷ rest) coins = spend_inputs rest (record {
  utxo = remove (outpoint_of input) coins.utxo;
  origins = remove (outpoint_of input) coins.origins;
})

unfoldable pub apply_regular_transaction : Transaction → Coins → ℕ → Result Coins
unfolding spend_inputs apply_outputs
apply_regular_transaction tx coins height =
    apply_outputs tx (spend_inputs tx.inputs coins) height false

unfoldable pub is_coinbase_mature : ℕ → ℕ → Bool
is_coinbase_mature created_height spending_height =
    if ltb spending_height created_height
    then false
    else if ltb spending_height coinbase_maturity_activation_height
    then true
    else leb coinbase_maturity (spending_height - created_height)

unfoldable pub check_maturity : List TxInput → Map Outpoint OutputOrigin → ℕ → Result (Unit {0})
unfolding is_coinbase_mature get outpoint_eq
check_maturity [] origins spending_height = ok tt
check_maturity (input ∷ rest) origins spending_height = do
  origin ← or_fail (get (outpoint_of input) origins) no_origin
  fail_if (origin.coinbase && not (is_coinbase_mature origin.created_height spending_height))
      immature
  check_maturity rest origins spending_height

unfoldable pub validate_coinbase_maturity :
    Transaction → Map Outpoint OutputOrigin → ℕ → Result (Unit {0})
unfolding check_maturity
validate_coinbase_maturity tx origins spending_height =
    check_maturity tx.inputs origins spending_height

abbrev pub held_back : Option OutputOrigin → ℕ → Bool
held_back none spending_height = true
held_back (some origin) spending_height =
    origin.coinbase && not (is_coinbase_mature origin.created_height spending_height)

-- Go ranges over the map in any order; the result is a map again.
unfoldable pub mature_utxo : Utxo → Map Outpoint OutputOrigin → ℕ → Utxo
unfolding is_coinbase_mature get outpoint_eq
mature_utxo [] origins spending_height = []
mature_utxo ((outpoint, output) ∷ utxo) origins spending_height =
    let rest = mature_utxo utxo origins spending_height in
    if held_back (get outpoint origins) spending_height then rest else (outpoint, output) ∷ rest

module _ ⦃c : Crypto⦄ where
  -- the loop of `balanceFromUTXO` and of `State.Balance`
  unfoldable pub balance_loop : Bytes → ℕ → Utxo → Result ℕ
  unfolding addresses_equal safe_add
  balance_loop address total [] = ok total
  balance_loop address total ((_, output) ∷ utxo) =
      let next = (safe_add total output.amount >>= λ total'. balance_loop address total' utxo) in
      let skip = balance_loop address total utxo in
      if addresses_equal output.address address then next else skip

  unfoldable pub balance_from_utxo : Utxo → Bytes → Result ℕ
  unfolding balance_loop
  balance_from_utxo utxo address = balance_loop address 0 utxo
