-- ===== src/Ledger/Selection.antt =====
-- internal/ledger/mining.go: which of the ordered transactions a block takes.
pub mod Fits
use entcoin.Base.{
  ℕ, zero, suc, ◌+◌, ◌-◌, ◌*◌, ◌/◌, ◌%◌, ◌^◌, Bool, true, false, ◌&&◌, ◌||◌, not, Option, none,
  some, List, [], ◌∷◌, ◌++◌, map, length, get_elem?, Bytes, ltb, leb, eqb, bytes_eq, bytes_Eq,
  Result, ok, err, fail_if, or_fail, is_ok, ◌>>=◌, ◌>>◌, if◌then◌else◌, mining_metadata,
  dependency_cycle, selected_twice, immature, stale_tip, chain_exhausted, Error, index_out_of_range,
}
use entcoin.Base.Int.{ℤ, pos}
use entcoin.Base.Map.{Map, get, put, contains, remove}
use entcoin.Core.Model.{
  TxInput, TxOutput, Transaction, Block, Outpoint, outpoint_eq, outpoint_Eq, Utxo,
  max_transaction_bytes, max_block_bytes, max_block_transactions, rules_at_height,
}
use entcoin.Core.Amount.{subsidy}
use entcoin.Core.Encoding.{Crypto}
use entcoin.Core.Address.{validate_address}
use entcoin.Core.Transaction.{outpoint_of, encoded_size, validate_regular_transaction, new_coinbase}
use entcoin.Core.Coins.{is_coinbase_mature}
use entcoin.Core.Time.{next_timestamp_at}
use entcoin.Core.Difficulty.{expected_difficulty_at}
use entcoin.Core.Merkle.{merkle_root}
use entcoin.Core.Work.{compute_hash}
use entcoin.Ledger.Tables.{Tables, Tip, MempoolRow, max_int64, tip_from_query, commit, output_of}
use entcoin.Ledger.Mempool.{rebuild_mempool}
use entcoin.Ledger.Apply.{checked_add, header_window_from_query, load_utxo, outpoint_at}
use entcoin.Ledger.Connect.{connect_block_at_time}

-- `miningUTXOView`: what the selected transactions created and spent
pub record MiningView : Type 0 where
  pub spending_height : ℕ
  pub created : Utxo
  pub spent : Map Outpoint (Unit {0})

abbrev confirmed_input : Tables → MiningView → Outpoint → Result TxOutput
unfolding load_utxo is_coinbase_mature
confirmed_input tables view outpoint = do
  found ← load_utxo tables outpoint
  fail_if (found.coinbase && not (is_coinbase_mature found.created_height view.spending_height))
      immature
  ok (output_of found)

abbrev created_or_confirmed : Tables → MiningView → Outpoint → Option TxOutput → Result TxOutput
unfolding confirmed_input
created_or_confirmed tables view outpoint (some output) = ok output
created_or_confirmed tables view outpoint none = confirmed_input tables view outpoint

unfoldable pub view_inputs : Tables → MiningView → List TxInput → Utxo → Result Utxo
unfolding contains get put outpoint_eq created_or_confirmed
view_inputs tables view [] utxo = ok utxo
view_inputs tables view (input ∷ rest) utxo = do
  fail_if (contains (outpoint_of input) view.spent) selected_twice
  output ←
      created_or_confirmed tables view (outpoint_of input) (get (outpoint_of input) view.created)
  view_inputs tables view rest (put (outpoint_of input) output utxo)

-- `apply` in its two loops. `false` is an error, and the view keeps what was done before it.
unfoldable pub view_create : Bytes → ℕ → List TxOutput → MiningView → MiningView × Bool
unfolding contains put outpoint_eq
view_create tx_id index [] view = (view, true)
view_create tx_id index (output ∷ rest) view =
    let next =
      view_create tx_id (index + 1) rest
        (record view { created = put (outpoint_at tx_id index) output view.created }) in
    if contains (outpoint_at tx_id index) view.created then (view, false) else next

unfoldable pub view_spend : List TxInput → MiningView → MiningView × Bool
unfolding contains put remove outpoint_eq
view_spend [] view = (view, true)
view_spend (input ∷ rest) view =
    let next = view_spend rest (record view {
      created = remove (outpoint_of input) view.created;
      spent = put (outpoint_of input) tt view.spent;
    }) in
    if contains (outpoint_of input) view.spent then (view, false) else next

unfoldable pub view_apply : Transaction → MiningView → MiningView × Bool
unfolding view_spend view_create
view_apply transaction view =
    let (spent, done) = view_spend transaction.inputs view in
    if done then view_create transaction.id 0 transaction.outputs spent else (spent, false)

-- what the selection loop carries
pub record Selection : Type 0 where
  pub view : MiningView
  pub count : ℕ
  pub size : ℕ
  pub fees : ℕ

abbrev pub start_selection : ℕ → ℕ → Selection
start_selection height size = record {
  view = record { spending_height = height; created = []; spent = [] };
  count = 0;
  size = size;
  fees = 0;
}

module _ ⦃c : Crypto⦄ where
  -- the fee of a transaction that can be selected
  unfoldable pub selection_fee : Tables → MiningView → Transaction → Result ℕ
  unfolding view_inputs validate_regular_transaction
  selection_fee tables view transaction = do
    utxo ← view_inputs tables view transaction.inputs []
    validate_regular_transaction transaction utxo

  abbrev pub too_large : Selection → Transaction → Bool
  unfolding encoded_size
  too_large selection transaction = ltb max_block_bytes (selection.size + encoded_size transaction)

  abbrev pub is_full : Selection → Bool
  is_full selection = leb (max_block_transactions - 1) selection.count

  abbrev pub selected_more : Selection → Transaction → MiningView → ℕ → Selection
  unfolding encoded_size
  selected_more selection transaction view fees = record {
    view = view;
    count = selection.count + 1;
    size = selection.size + encoded_size transaction;
    fees = fees;
  }

  -- a transaction that was valid is applied to the view; the rest of the loop is `next`
  abbrev pub take_or_skip :
      Selection
      → Transaction
      → ℕ
      → MiningView × Bool
      → (Selection → Result (List Transaction × ℕ))
      → Result (List Transaction × ℕ)
  unfolding checked_add selected_more
  take_or_skip selection transaction fee (view, false) next =
      next (record selection { view = view })
  take_or_skip selection transaction fee (view, true) next = do
    fees ← checked_add selection.fees fee
    rest ← next (selected_more selection transaction view fees)
    ok (transaction ∷ rest.0, rest.1)

  abbrev pub consider :
      Selection
      → Transaction
      → Result ℕ
      → (Selection → Result (List Transaction × ℕ))
      → Result (List Transaction × ℕ)
  unfolding view_apply take_or_skip
  consider selection transaction (err e) next = next selection
  consider selection transaction (ok fee) next =
      take_or_skip selection transaction fee (view_apply transaction selection.view) next

  -- The selected transactions and their fees.
  unfoldable pub select_transactions :
      Tables → Selection → List Transaction → Result (List Transaction × ℕ)
  unfolding selection_fee consider too_large
  select_transactions tables selection [] = ok ([], selection.fees)
  select_transactions tables selection (transaction ∷ rest) = elim (is_full selection) [
    | true ↦ ok ([], selection.fees)
    | false ↦ elim (too_large selection transaction) [
      | true ↦ select_transactions tables selection rest
      | false ↦
          consider selection transaction (selection_fee tables selection.view transaction)
            (λ next. select_transactions tables next rest)
    ]
  ]
