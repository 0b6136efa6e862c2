-- ===== src/Ledger/Apply.antt =====
-- internal/ledger/apply.go: the rows that connecting a block reads, deletes and inserts.
use entcoin.Base.{
  ℕ, ◌+◌, ◌-◌, Bool, false, ◌&&◌, not, some, List, [], ◌∷◌, ◌++◌, map, Bytes, ltb, leb, eqb,
  bytes_eq, bytes_Eq, nat_eq, Result, ok, err, fail_if, or_fail, ◌>>=◌, ◌>>◌, if◌then◌else◌,
  amount_overflow, storage_range, duplicate_transaction, already_exists, missing_input,
  stored_input, immature, input_changed, constraint,
}
use entcoin.Base.Int.{pos, negsuc}
use entcoin.Base.Map.{Map, get, put, contains, remove}
use entcoin.Core.Model.{
  TxInput, TxOutput, Transaction, Block, Outpoint, outpoint_eq, outpoint_Eq, Utxo, first_adjustment,
  max_uint64,
}
use entcoin.Core.Transaction.{outpoint_of}
use entcoin.Core.Coins.{is_coinbase_mature}
use entcoin.Ledger.Tables.{
  Tables, BlockRow, TransactionRow, AddressRow, UtxoRow, UtxoRecord, UndoRecord, UndoRow, output_of,
  outpoint_of_record, max_int64, insert_row, exists_row, select_rows,
}

abbrev pub outpoint_at : Bytes → ℕ → Outpoint
outpoint_at tx_id index = record { tx_id = tx_id; index = index }

abbrev pub utxo_row : TxOutput → ℕ → Bool → UtxoRow
utxo_row output height coinbase = record {
  amount = output.amount;
  address = output.address;
  created_height = height;
  coinbase = coinbase;
}

abbrev pub address_row : Bytes → ℕ → TxOutput → AddressRow
address_row tx_id index output = record {
  tx_id = tx_id;
  ordinal = index;
  address = output.address;
  direction = pos 1;
  amount = output.amount;
}

abbrev pub transaction_row : Transaction → ℕ → ℕ → TransactionRow
transaction_row transaction height position = record {
  id = transaction.id;
  block_height = height;
  tx_index = position;
  coinbase = transaction.coinbase;
  body = some transaction;
}

abbrev pub block_row : Block → ℕ → BlockRow
block_row block cumulative_work = record {
  header = record block { transactions = [] };
  cumulative_work = cumulative_work;
  body = some block;
}

abbrev pub undo_row : Block → UndoRecord → UndoRow
undo_row block undo = record { block_hash = block.hash; undo = undo }

abbrev pub with_utxos : Tables → Map Outpoint UtxoRow → Tables
with_utxos tables utxos = record tables { utxos = utxos }

abbrev pub with_block_undo : Tables → Map ℕ UndoRow → Tables
with_block_undo tables rows = record tables { block_undo = rows }

abbrev pub with_created : UndoRecord → List Outpoint → UndoRecord
with_created undo created = record undo { created = undo.created ++ created }

unfoldable pub checked_add : ℕ → ℕ → Result ℕ
checked_add left right =
    if ltb (max_uint64 - left) right then err amount_overflow else ok (left + right)

-- The rows of `blocks` stand in the order of their heights.
unfoldable pub header_window_from_query : Tables → ℕ → Result (List Block)
unfolding select_rows
header_window_from_query tables through_height =
    if ltb max_int64 through_height
    then err storage_range
    else let start =
        if ltb first_adjustment (through_height + 1)
        then through_height + 1 - first_adjustment
        else 0 in
      ok (
        map (λ row. row.header)
          (select_rows (λ row. leb start row.header.height && leb row.header.height through_height)
            tables.blocks))

unfoldable pub ensure_new_transaction_id : Tables → Bytes → Map Bytes (Unit {0}) → Result (Unit {0})
unfolding contains exists_row bytes_eq
ensure_new_transaction_id tables id seen = do
  fail_if (contains id seen) duplicate_transaction
  fail_if (exists_row (λ row. bytes_eq row.id id) tables.transactions) already_exists

unfoldable pub load_utxo : Tables → Outpoint → Result UtxoRecord
unfolding get outpoint_eq
load_utxo tables outpoint = do
  row ← or_fail (get outpoint tables.utxos) missing_input
  fail_if (eqb row.amount 0) stored_input
  ok (record {
    tx_id = outpoint.tx_id;
    output_index = outpoint.index;
    amount = row.amount;
    address = row.address;
    created_height = row.created_height;
    coinbase = row.coinbase;
  })

unfoldable pub load_transaction_inputs :
    Tables → List TxInput → List UtxoRecord → Utxo → Result (List UtxoRecord × Utxo)
unfolding load_utxo put outpoint_eq
load_transaction_inputs tables [] records utxo = ok (records, utxo)
load_transaction_inputs tables (input ∷ rest) records utxo = do
  loaded ← load_utxo tables (outpoint_of input)
  load_transaction_inputs tables rest (records ++ (loaded ∷ []))
      (put (outpoint_of_record loaded) (output_of loaded) utxo)

unfoldable pub validate_input_maturity : List UtxoRecord → ℕ → Result (Unit {0})
unfolding is_coinbase_mature
validate_input_maturity [] spending_height = ok tt
validate_input_maturity (input ∷ rest) spending_height = do
  fail_if (input.coinbase && not (is_coinbase_mature input.created_height spending_height)) immature
  validate_input_maturity rest spending_height

-- A DELETE that affects no row fails the block.
unfoldable pub delete_inputs :
    List UtxoRecord → Map Outpoint UtxoRow → Result (Map Outpoint UtxoRow)
unfolding contains remove outpoint_eq
delete_inputs [] utxos = ok utxos
delete_inputs (input ∷ rest) utxos = do
  fail_if (not (contains (outpoint_of_record input) utxos)) input_changed
  delete_inputs rest (remove (outpoint_of_record input) utxos)

-- the outputs from number `index`; `created` collects their outpoints
unfoldable pub insert_outputs :
    Bytes
    → ℕ
    → Bool
    → ℕ
    → List TxOutput
    → Map Outpoint UtxoRow
    → List Outpoint
    → Result (Map Outpoint UtxoRow × List Outpoint)
unfolding insert_row outpoint_eq
insert_outputs tx_id height coinbase index [] utxos created = ok (utxos, created)
insert_outputs tx_id height coinbase index (output ∷ rest) utxos created = do
  fail_if (ltb max_int64 output.amount) storage_range
  let outpoint = outpoint_at tx_id index
  utxos' ← insert_row outpoint (utxo_row output height coinbase) utxos
  insert_outputs tx_id height coinbase (index + 1) rest utxos' (created ++ (outpoint ∷ []))

-- `applyRegularTransaction`
unfoldable pub apply_transaction_rows :
    Map Outpoint UtxoRow
    → Transaction
    → ℕ
    → List UtxoRecord
    → Result (Map Outpoint UtxoRow × List Outpoint)
unfolding delete_inputs insert_outputs
apply_transaction_rows utxos transaction height inputs = do
  left ← delete_inputs inputs utxos
  insert_outputs transaction.id height false 0 transaction.outputs left []

unfoldable pub input_addresses : Bytes → ℕ → List UtxoRecord → List AddressRow
input_addresses tx_id index [] = []
input_addresses tx_id index (input ∷ rest) =
    record {
      tx_id = tx_id;
      ordinal = index;
      address = input.address;
      direction = negsuc 0;
      amount = input.amount;
    }
    ∷ input_addresses tx_id (index + 1) rest

unfoldable pub output_addresses : Bytes → ℕ → List TxOutput → Result (List AddressRow)
output_addresses tx_id index [] = ok []
output_addresses tx_id index (output ∷ rest) = do
  fail_if (ltb max_int64 output.amount) storage_range
  rows ← output_addresses tx_id (index + 1) rest
  ok (address_row tx_id index output ∷ rows)

-- The address rows of a new identifier are new.
unfoldable pub insert_transaction : Tables → Transaction → ℕ → ℕ → List UtxoRecord → Result Tables
unfolding exists_row bytes_eq input_addresses output_addresses
insert_transaction tables transaction height position inputs = do
  fail_if (exists_row (λ row. bytes_eq row.id transaction.id) tables.transactions) constraint
  outputs ← output_addresses transaction.id 0 transaction.outputs
  ok (record tables {
    transactions = tables.transactions ++ (transaction_row transaction height position ∷ []);
    transaction_addresses =
        tables.transaction_addresses ++ (input_addresses transaction.id 0 inputs ++ outputs);
  })
