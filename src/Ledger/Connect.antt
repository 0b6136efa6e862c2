-- ===== src/Ledger/Connect.antt =====
-- ConnectBlock of internal/ledger/apply.go: the loop over the transactions of a block, the coinbase and
-- the undo record.
pub mod Tip
use entcoin.Base.{
  ℕ, ◌+◌, ◌-◌, Bool, true, false, ◌&&◌, ◌||◌, not, some, List, [], ◌∷◌, ◌++◌, map, length,
  get_elem?, Bytes, ltb, leb, eqb, bytes_eq, bytes_Eq, nat_eq, Result, ok, err, fail_if, or_fail,
  ◌>>=◌, ◌>>◌, if◌then◌else◌, amount_overflow, storage_range, no_header, first_coinbase,
  many_coinbases, duplicate_transaction, already_exists, missing_input, stored_input, immature,
  input_changed, constraint,
}
use entcoin.Base.Int.{ℤ, pos, negsuc}
use entcoin.Base.Map.{Map, get, put, contains, remove}
use entcoin.Core.Model.{
  TxInput, TxOutput, Transaction, Block, Outpoint, outpoint_eq, outpoint_Eq, Utxo, first_adjustment,
  max_uint64,
}
use entcoin.Core.Amount.{subsidy}
use entcoin.Core.Encoding.{Crypto}
use entcoin.Core.Transaction.{outpoint_of, validate_regular_transaction, validate_coinbase}
use entcoin.Core.Coins.{is_coinbase_mature}
use entcoin.Core.Header.{validate_block_header_at_time}
use entcoin.Ledger.Tables.{
  Tables, BlockRow, TransactionRow, AddressRow, UtxoRow, UtxoRecord, UndoRecord, UndoRow, output_of,
  outpoint_of_record, max_int64, insert_row, exists_row, select_rows, tip_from_query, block_work,
  commit,
}
use entcoin.Ledger.Mempool.{rebuild_mempool}
use entcoin.Ledger.Apply.{
  block_row, undo_row, with_utxos, with_block_undo, with_created, checked_add,
  header_window_from_query, ensure_new_transaction_id, load_transaction_inputs,
  validate_input_maturity, insert_outputs, apply_transaction_rows, insert_transaction,
}

-- what the loop over the transactions of a block carries
pub record Connecting : Type 0 where
  pub tables : Tables
  pub undo : UndoRecord
  pub seen : Map Bytes (Unit {0})
  pub fees : ℕ

abbrev pub start_connecting : Tables → Connecting
start_connecting tables = record {
  tables = tables;
  undo = record { spent = []; created = [] };
  seen = [];
  fees = 0;
}

module _ ⦃c : Crypto⦄ where
  unfoldable pub connect_transaction : ℕ → ℕ → Transaction → Connecting → Result Connecting
  unfolding ensure_new_transaction_id load_transaction_inputs validate_regular_transaction
      validate_input_maturity checked_add apply_transaction_rows insert_transaction put bytes_eq
  connect_transaction height position transaction state = do
    fail_if transaction.coinbase many_coinbases
    ensure_new_transaction_id state.tables transaction.id state.seen
    loaded ← load_transaction_inputs state.tables transaction.inputs [] []
    fee ← validate_regular_transaction transaction loaded.1
    validate_input_maturity loaded.0 height
    fees ← checked_add state.fees fee
    applied ← apply_transaction_rows state.tables.utxos transaction height loaded.0
    tables ←
        insert_transaction (with_utxos state.tables applied.0) transaction height position loaded.0
    ok (record {
      tables = tables;
      undo = record {
        spent = state.undo.spent ++ loaded.0;
        created = state.undo.created ++ applied.1;
      };
      seen = put transaction.id tt state.seen;
      fees = fees;
    })

  unfoldable pub connect_regular : ℕ → ℕ → List Transaction → Connecting → Result Connecting
  unfolding connect_transaction
  connect_regular height position [] state = ok state
  connect_regular height position (transaction ∷ rest) state = do
    state' ← connect_transaction height position transaction state
    connect_regular height (position + 1) rest state'

  unfoldable pub connect_coinbase : ℕ → Transaction → Connecting → Result (Tables × UndoRecord)
  unfolding ensure_new_transaction_id checked_add validate_coinbase insert_outputs
      insert_transaction subsidy
  connect_coinbase height coinbase state = do
    ensure_new_transaction_id state.tables coinbase.id state.seen
    maximum_reward ← checked_add (subsidy height) state.fees
    validate_coinbase coinbase maximum_reward
    inserted ← insert_outputs coinbase.id height true 0 coinbase.outputs state.tables.utxos []
    tables ← insert_transaction (with_utxos state.tables inserted.0) coinbase height 0 []
    ok (tables, with_created state.undo inserted.1)

  -- `blocks` has the keys height and hash
  unfoldable pub insert_block : Tables → Block → ℕ → Result Tables
  unfolding exists_row bytes_eq
  insert_block tables block cumulative_work = do
    fail_if
        (exists_row
          (λ row. eqb row.header.height block.height || bytes_eq row.header.hash block.hash)
          tables.blocks)
        constraint
    ok (record tables { blocks = tables.blocks ++ (block_row block cumulative_work ∷ []) })

  -- the check UNIQUE of the hashes
  unfoldable pub has_undo_hash : Bytes → Map ℕ UndoRow → Bool
  unfolding bytes_eq
  has_undo_hash hash [] = false
  has_undo_hash hash ((height, row) ∷ rows) =
      bytes_eq row.block_hash hash || has_undo_hash hash rows

  unfoldable pub insert_undo : Tables → Block → UndoRecord → Result Tables
  unfolding insert_row has_undo_hash
  insert_undo tables block undo = do
    fail_if (has_undo_hash block.hash tables.block_undo) constraint
    rows ← insert_row block.height (undo_row block undo) tables.block_undo
    ok (with_block_undo tables rows)

  abbrev pub connect_body : Tables → Block → ℕ → List Transaction → Result Tables
  connect_body tables block cumulative_work [] = err first_coinbase
  connect_body tables block cumulative_work (coinbase ∷ regular) = do
    fail_if (not coinbase.coinbase) first_coinbase
    tables₁ ← insert_block tables block cumulative_work
    connected ← connect_regular block.height 1 regular (start_connecting tables₁)
    finished ← connect_coinbase block.height coinbase connected
    insert_undo finished.0 block finished.1

  unfoldable pub connect_block_at_time : Tables → Block → ℤ → Result Tables
  unfolding tip_from_query header_window_from_query validate_block_header_at_time insert_block
      connect_regular connect_coinbase insert_undo block_work
  connect_block_at_time tables block validation_time = do
    tip ← tip_from_query tables
    fail_if (ltb max_int64 block.height) storage_range
    prior_headers ← header_window_from_query tables tip.height
    previous ← or_fail (get_elem? prior_headers (length prior_headers - 1)) no_header
    validate_block_header_at_time block previous prior_headers validation_time
    connect_body tables block (tip.work + block_work block.difficulty) block.transactions

  -- `now` is read for the block, and again for the rebuilt mempool
  unfoldable pub connect_block : Tables → Block → ℤ → ℤ → Result (Unit {0}) × Tables
  unfolding connect_block_at_time rebuild_mempool
  connect_block tables block now later =
      commit tables
        (do connected ← connect_block_at_time tables block now; rebuild_mempool connected [] later)
