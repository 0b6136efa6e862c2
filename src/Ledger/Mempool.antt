-- ===== src/Ledger/Mempool.antt =====
-- internal/ledger/mempool.go: admission of pending transactions and the tables that index them.
pub mod Usage
pub mod Steps
pub mod Budget
pub mod Chain
use entcoin.Base.{
  ℕ, ◌+◌, ◌-◌, ◌*◌, ◌/◌, ◌%◌, ◌^◌, Bool, true, false, ◌&&◌, ◌||◌, not, Option, none, some, List, [],
  ◌∷◌, ◌++◌, map, length, take, drop, Bytes, ltb, leb, eqb, Eq, ◌==◌, bytes_eq, bytes_Eq, Result,
  ok, err, fail_if, or_fail, check_each, ◌>>=◌, ◌>>◌, if◌then◌else◌, Error, rejected,
  coinbase_in_mempool, already_known, mempool_accounting, pending_limit, byte_budget, input_budget,
  pending_spent, missing_input, stored_output, immature, relay_fee, storage_range, constraint,
  chain_exhausted, page_limit, page_offset, spendable_overflow,
}
use entcoin.Base.Int.{ℤ, pos, sub_ℕ, ltb_ℤ}
use entcoin.Base.Map.{Map, get, put, contains}
use entcoin.Core.Model.{
  TxInput, TxOutput, Transaction, Outpoint, outpoint_eq, outpoint_Eq, Utxo,
  max_pending_transactions, max_uint64, coinbase_maturity, coinbase_maturity_activation_height,
}
use entcoin.Core.Encoding.{Crypto}
use entcoin.Core.Address.{validate_address, equal_fold}
use entcoin.Core.Transaction.{encoded_size, outpoint_of, validate_regular_transaction}
use entcoin.Core.Coins.{is_coinbase_mature}
use entcoin.Ledger.Tables.{
  Tables, TransactionRow, UtxoRow, MempoolRow, Tip, max_int64, insert_row, exists_row, select_rows,
  tip_from_query, commit,
}

abbrev pub max_mempool_bytes : ℕ
max_mempool_bytes = 32 * 2 ^ 20

abbrev pub max_mempool_inputs : ℕ
max_mempool_inputs = 20_000

abbrev pub minimum_relay_fee_per_kibibyte : ℕ
minimum_relay_fee_per_kibibyte = 1_000

abbrev pub relay_fee_units : ℕ
relay_fee_units = 2 ^ 10

-- Counts and sums of table rows, which are not negative.
pub record ResourceUsage : Type 0 where
  pub count : ℕ
  pub bytes : ℕ
  pub inputs : ℕ

pub record PendingTransaction : Type 0 where
  pub transaction : Transaction
  pub first_seen : ℤ

abbrev pub is_mempool_rejection : Error → Bool
is_mempool_rejection (rejected e) = true
is_mempool_rejection _ = false

-- `rejectMempool(err)` of a call's error
abbrev pub reject {ℓ} : {A : Type ℓ} → Result A → Result A
reject (ok a) = ok a
reject (err e) = err (rejected e)

unfoldable pub sum_sizes : List MempoolRow → ℕ
sum_sizes [] = 0
sum_sizes (row ∷ rows) = row.encoded_size + sum_sizes rows

unfoldable pub read_mempool_resource_usage : Tables → ResourceUsage
unfolding sum_sizes
read_mempool_resource_usage tables = record {
  count = length tables.mempool;
  bytes = sum_sizes tables.mempool;
  inputs = length tables.mempool_inputs;
}

unfoldable pub validate_mempool_resource_budget : ResourceUsage → ℕ → ℕ → Result (Unit {0})
validate_mempool_resource_budget usage encoded_size inputs = do
  fail_if (eqb encoded_size 0 || eqb inputs 0) mempool_accounting
  fail_if (leb max_pending_transactions usage.count) pending_limit
  fail_if (ltb_ℤ (sub_ℕ max_mempool_bytes usage.bytes) (pos encoded_size)) byte_budget
  fail_if (ltb_ℤ (sub_ℕ max_mempool_inputs usage.inputs) (pos inputs)) input_budget

unfoldable pub minimum_relay_fee : ℕ → ℕ
minimum_relay_fee encoded_size =
    if eqb encoded_size 0
    then 0
    else let kibibytes = ((encoded_size + relay_fee_units - 1) % 2 ^ 64) / relay_fee_units in
      (kibibytes * minimum_relay_fee_per_kibibyte) % 2 ^ 64

-- the row of `utxos`, or else of `mempool_outputs`
abbrev stored_or_pending : Option UtxoRow → Option TxOutput → ℕ → Result TxOutput
stored_or_pending (some row) pending spending_height = do
  fail_if (eqb row.amount 0) stored_output
  fail_if (row.coinbase && not (is_coinbase_mature row.created_height spending_height))
      (rejected immature)
  ok (record { amount = row.amount; address = row.address })
stored_or_pending none (some output) spending_height = do
  fail_if (eqb output.amount 0) stored_output
  ok output
stored_or_pending none none spending_height = err (rejected missing_input)

unfoldable pub lookup_mempool_spendable : Tables → Outpoint → ℕ → Result TxOutput
unfolding contains get outpoint_eq is_coinbase_mature
lookup_mempool_spendable tables outpoint spending_height = do
  fail_if (contains outpoint tables.mempool_inputs) (rejected pending_spent)
  stored_or_pending (get outpoint tables.utxos) (get outpoint tables.mempool_outputs)
      spending_height

unfoldable pub load_mempool_inputs : Tables → ℕ → List TxInput → Utxo → Result Utxo
unfolding lookup_mempool_spendable put outpoint_eq
load_mempool_inputs tables spending_height [] utxo = ok utxo
load_mempool_inputs tables spending_height (input ∷ rest) utxo = do
  output ← lookup_mempool_spendable tables (outpoint_of input) spending_height
  load_mempool_inputs tables spending_height rest (put (outpoint_of input) output utxo)

unfoldable pub insert_mempool_inputs :
    Bytes → List TxInput → Map Outpoint Bytes → Result (Map Outpoint Bytes)
unfolding insert_row outpoint_eq
insert_mempool_inputs tx_id [] table = ok table
insert_mempool_inputs tx_id (input ∷ rest) table = do
  table' ← insert_row (outpoint_of input) tx_id table
  insert_mempool_inputs tx_id rest table'

unfoldable pub insert_mempool_outputs :
    Bytes → ℕ → List TxOutput → Map Outpoint TxOutput → Result (Map Outpoint TxOutput)
unfolding insert_row outpoint_eq
insert_mempool_outputs tx_id index [] table = ok table
insert_mempool_outputs tx_id index (output ∷ rest) table = do
  table' ← insert_row (record { tx_id = tx_id; index = index }) output table
  insert_mempool_outputs tx_id (index + 1) rest table'

unfoldable pub is_known : Tables → Bytes → Bool
unfolding exists_row bytes_eq
is_known tables id =
    exists_row (λ row. bytes_eq row.id id) tables.transactions
    || exists_row (λ row. bytes_eq row.tx_id id) tables.mempool

abbrev pub row_of : Transaction → ℤ → ℕ → MempoolRow
unfolding encoded_size
row_of transaction first_seen fee = record {
  tx_id = transaction.id;
  first_seen = first_seen;
  fee = fee;
  encoded_size = encoded_size transaction;
  body = transaction;
}

-- the rows of an admitted transaction, and the usage with it
unfoldable pub insert_pending :
    Tables → Transaction → ℤ → ℕ → ResourceUsage → Result (Tables × ResourceUsage)
unfolding insert_mempool_inputs insert_mempool_outputs encoded_size exists_row bytes_eq
insert_pending tables transaction first_seen fee usage = do
  fail_if (exists_row (λ row. bytes_eq row.tx_id transaction.id) tables.mempool) constraint
  inputs ← insert_mempool_inputs transaction.id transaction.inputs tables.mempool_inputs
  outputs ← insert_mempool_outputs transaction.id 0 transaction.outputs tables.mempool_outputs
  let row = row_of transaction first_seen fee
  ok (
    record tables {
      mempool = tables.mempool ++ (row ∷ []);
      mempool_inputs = inputs;
      mempool_outputs = outputs;
    },
    record {
      count = usage.count + 1;
      bytes = usage.bytes + encoded_size transaction;
      inputs = usage.inputs + length transaction.inputs;
    },
  )

abbrev pub tables_of : Result (Tables × ResourceUsage) → Result Tables
tables_of (ok (tables, usage)) = ok tables
tables_of (err e) = err e

abbrev pending_of : MempoolRow → PendingTransaction
pending_of row = record { transaction = row.body; first_seen = row.first_seen }

-- DELETE FROM mempool, which cascades to the tables of inputs and outputs
abbrev pub clear_mempool : Tables → Tables
clear_mempool tables = record tables { mempool = []; mempool_inputs = []; mempool_outputs = [] }

-- the returned transactions come before those that were pending
abbrev pub rebuilt_list : List Transaction → ℤ → List MempoolRow → List PendingTransaction
rebuilt_list extra now rows =
    map (λ transaction. record { transaction = transaction; first_seen = now }) extra
    ++ map pending_of rows

module _ ⦃c : Crypto⦄ where
  -- the checks before the first INSERT; the result is the fee
  unfoldable pub check_admission : Tables → Transaction → ℕ → ResourceUsage → Result ℕ
  unfolding is_known encoded_size validate_mempool_resource_budget load_mempool_inputs
      validate_regular_transaction minimum_relay_fee check_each
  check_admission tables transaction spending_height usage = do
    fail_if transaction.coinbase (rejected coinbase_in_mempool)
    fail_if (is_known tables transaction.id) (rejected already_known)
    let size = encoded_size transaction
    reject (validate_mempool_resource_budget usage size (length transaction.inputs))
    utxo ← load_mempool_inputs tables spending_height transaction.inputs []
    fee ← reject (validate_regular_transaction transaction utxo)
    fail_if (ltb fee (minimum_relay_fee size)) (rejected relay_fee)
    fail_if (ltb max_int64 fee) (rejected storage_range)
    check_each (λ output. fail_if (ltb max_int64 output.amount) (rejected storage_range))
        transaction.outputs
    ok fee

  unfoldable pub add_mempool_transaction_with_usage :
      Tables → Transaction → ℤ → ℕ → ResourceUsage → Result (Tables × ResourceUsage)
  unfolding check_admission insert_pending
  add_mempool_transaction_with_usage tables transaction first_seen spending_height usage = do
    fee ← check_admission tables transaction spending_height usage
    insert_pending tables transaction first_seen fee usage

  -- without a usage: it is read from the tables
  unfoldable pub add_mempool_transaction : Tables → Transaction → ℤ → ℕ → Result Tables
  unfolding add_mempool_transaction_with_usage read_mempool_resource_usage
  add_mempool_transaction tables transaction first_seen spending_height = tables_of (
      add_mempool_transaction_with_usage tables transaction first_seen spending_height
        (read_mempool_resource_usage tables))

  unfoldable pub add_transaction : Tables → Transaction → ℤ → Result (Unit {0}) × Tables
  unfolding tip_from_query add_mempool_transaction
  add_transaction tables transaction now = commit tables (do
    tip ← tip_from_query tables
    fail_if (leb max_int64 tip.height) chain_exhausted
    add_mempool_transaction tables transaction now (tip.height + 1))

  -- a rejected transaction is passed over, and another error ends the loop
  unfoldable pub repopulate_from :
      Tables → ResourceUsage → List PendingTransaction → ℕ → Result Tables
  unfolding add_mempool_transaction_with_usage
  repopulate_from tables usage [] spending_height = ok tables
  repopulate_from tables usage (item ∷ rest) spending_height =
      elim (add_mempool_transaction_with_usage tables item.transaction item.first_seen
        spending_height usage) [
          | ok (tables', usage') ↦ repopulate_from tables' usage' rest spending_height
          | err e ↦ elim (is_mempool_rejection e) [
            | true ↦ repopulate_from tables usage rest spending_height
            | false ↦ err e
          ]
        ]

  unfoldable pub repopulate_mempool : Tables → List PendingTransaction → ℕ → Result Tables
  unfolding repopulate_from read_mempool_resource_usage
  repopulate_mempool tables pending spending_height =
      repopulate_from tables (read_mempool_resource_usage tables) pending spending_height

  unfoldable pub rebuild_mempool : Tables → List Transaction → ℤ → Result Tables
  unfolding tip_from_query repopulate_mempool
  rebuild_mempool tables extra now = do
    tip ← tip_from_query tables
    fail_if (leb max_int64 tip.height) chain_exhausted
    repopulate_mempool (clear_mempool tables) (rebuilt_list extra now tables.mempool)
        (tip.height + 1)
