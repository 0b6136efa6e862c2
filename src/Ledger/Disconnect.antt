-- ===== src/Ledger/Disconnect.antt =====
-- internal/ledger/reorg.go: disconnecting the tip with the record that undoes its block.
use entcoin.Base.{
  ℕ, ◌+◌, ◌&&◌, ◌||◌, not, Option, none, some, List, [], ◌∷◌, Bytes, ltb, leb, eqb, bytes_eq,
  bytes_Eq, nat_eq, Result, ok, fail_if, or_fail, ◌>>=◌, ◌>>◌, if◌then◌else◌, genesis_disconnect,
  beyond_prune, block_not_found, undo_missing, undo_hash, undo_duplicate, undo_invalid, tip_changed,
  position_gap,
}
use entcoin.Base.Int.{ℤ}
use entcoin.Base.Map.{Map, get, put, contains, remove}
use entcoin.Core.Model.{Transaction, Block, Outpoint, outpoint_eq, outpoint_Eq}
use entcoin.Core.Encoding.{Crypto}
use entcoin.Core.Address.{validate_address}
use entcoin.Ledger.Tables.{
  Tables, Tip, BlockRow, TransactionRow, UtxoRow, UtxoRecord, UndoRecord, outpoint_of_record,
  max_int64, insert_row, exists_row, select_rows, tip_from_query,
}
use entcoin.Ledger.Mempool.{rebuild_mempool}

-- ORDER BY tx_index
unfoldable pub insert_by_index : TransactionRow → List TransactionRow → List TransactionRow
insert_by_index row [] = row ∷ []
insert_by_index row (next ∷ rows) =
    if leb row.tx_index next.tx_index then row ∷ next ∷ rows else next ∷ insert_by_index row rows

unfoldable pub order_by_index : List TransactionRow → List TransactionRow
unfolding insert_by_index
order_by_index [] = []
order_by_index (row ∷ rows) = insert_by_index row (order_by_index rows)

-- the loop over the rows, from the position `position`
unfoldable pub read_bodies : ℕ → List TransactionRow → Result (List Transaction)
read_bodies position [] = ok []
read_bodies position (row ∷ rows) = do
  fail_if (not (eqb row.tx_index position)) position_gap
  transaction ← or_fail row.body beyond_prune
  rest ← read_bodies (position + 1) rows
  ok (transaction ∷ rest)

unfoldable pub transactions_at : Tables → ℕ → Result (List Transaction)
unfolding order_by_index select_rows read_bodies
transactions_at tables height =
    read_bodies 0
      (order_by_index (select_rows (λ row. eqb row.block_height height) tables.transactions))

unfoldable pub only_regular : List Transaction → List Transaction
only_regular [] = []
only_regular (transaction ∷ rest) =
    let regular = only_regular rest in
    if transaction.coinbase then regular else transaction ∷ regular

unfoldable pub regular_transactions_at : Tables → ℕ → Result (List Transaction)
unfolding transactions_at only_regular
regular_transactions_at tables height = do
  transactions ← transactions_at tables height
  ok (only_regular transactions)

unfoldable pub find_block : ℕ → List BlockRow → Option BlockRow
find_block height [] = none
find_block height (row ∷ rows) =
    if eqb row.header.height height then some row else find_block height rows

abbrev body_or_rows : Tables → BlockRow → Option Block → Result Block
body_or_rows tables row (some block) = ok block
body_or_rows tables row none = do
  transactions ← transactions_at tables row.header.height
  ok (record row.header { transactions = transactions })

unfoldable pub block_from_query : Tables → ℕ → Result Block
unfolding find_block transactions_at
block_from_query tables height = do
  fail_if (ltb max_int64 height) block_not_found
  row ← or_fail (find_block height tables.blocks) block_not_found
  body_or_rows tables row row.body

-- the outputs of the block go; the result is the set of their outpoints
unfoldable pub remove_created :
    List Outpoint
    → Map Outpoint (Unit {0})
    → Map Outpoint UtxoRow
    → Result (Map Outpoint (Unit {0}) × Map Outpoint UtxoRow)
unfolding contains put remove outpoint_eq
remove_created [] created utxos = ok (created, utxos)
remove_created (outpoint ∷ rest) created utxos = do
  fail_if (contains outpoint created) undo_duplicate
  remove_created rest (put outpoint tt created) (remove outpoint utxos)

abbrev pub row_of_record : UtxoRecord → UtxoRow
row_of_record spent = record {
  amount = spent.amount;
  address = spent.address;
  created_height = spent.created_height;
  coinbase = spent.coinbase;
}

module _ ⦃c : Crypto⦄ where
  -- the row of a spent output comes back
  unfoldable pub restore_row : UtxoRecord → Map Outpoint UtxoRow → Result (Map Outpoint UtxoRow)
  restore_row spent utxos = do
    fail_if
        (eqb spent.amount 0 || (ltb max_int64 spent.amount || ltb max_int64 spent.created_height))
        undo_invalid
    validate_address spent.address
    insert_row (outpoint_of_record spent) (row_of_record spent) utxos

  -- unless the block itself had created it
  unfoldable pub restore_spent :
      UtxoRecord → Map Outpoint (Unit {0}) → Map Outpoint UtxoRow → Result (Map Outpoint UtxoRow)
  restore_spent spent created utxos =
      if contains (outpoint_of_record spent) created then ok utxos else restore_row spent utxos

  unfoldable pub restore_all :
      List UtxoRecord
      → Map Outpoint (Unit {0})
      → Map Outpoint UtxoRow
      → Result (Map Outpoint UtxoRow)
  unfolding restore_spent
  restore_all [] created utxos = ok utxos
  restore_all (spent ∷ rest) created utxos = do
    utxos' ← restore_spent spent created utxos
    restore_all rest created utxos'

  -- DELETE FROM blocks by height and hash, with the rows that hang on it
  unfoldable pub delete_block : Tables → ℕ → Bytes → Tables
  unfolding select_rows exists_row remove bytes_eq
  delete_block tables height hash =
      let gone = select_rows (λ row. eqb row.block_height height) tables.transactions in
      record tables {
        blocks =
            select_rows (λ row. not (eqb row.header.height height && bytes_eq row.header.hash hash))
              tables.blocks;
        transactions = select_rows (λ row. not (eqb row.block_height height)) tables.transactions;
        transaction_addresses =
            select_rows
              (λ row. not (exists_row (λ transaction. bytes_eq transaction.id row.tx_id) gone))
              tables.transaction_addresses;
        block_undo = remove height tables.block_undo;
      }

  abbrev pub replace_utxos : Tables → Map Outpoint UtxoRow → Tables
  replace_utxos tables utxos = record tables { utxos = utxos }

  -- the part after the reads
  unfoldable pub undo_block : Tables → Tip → UndoRecord → Result Tables
  unfolding remove_created restore_all delete_block exists_row bytes_eq
  undo_block tables tip undo = do
    removed ← remove_created undo.created [] tables.utxos
    utxos ← restore_all undo.spent removed.0 removed.1
    fail_if
        (not (
          exists_row (λ row. eqb row.header.height tip.height && bytes_eq row.header.hash tip.hash)
            tables.blocks))
        tip_changed
    ok (delete_block (replace_utxos tables utxos) tip.height tip.hash)

  unfoldable pub disconnect_tip : Tables → Result (Block × List Transaction × Tables)
  unfolding tip_from_query block_from_query get regular_transactions_at undo_block bytes_eq
  disconnect_tip tables = do
    tip ← tip_from_query tables
    fail_if (eqb tip.height 0) genesis_disconnect
    fail_if (leb tip.height tables.pruned_through) beyond_prune
    block ← block_from_query tables tip.height
    undo ← or_fail (get tip.height tables.block_undo) undo_missing
    fail_if (not (bytes_eq undo.block_hash tip.hash)) undo_hash
    orphaned ← regular_transactions_at tables tip.height
    tables' ← undo_block tables tip undo.undo
    ok (block, orphaned, tables')

  unfoldable pub disconnect_and_rebuild : Tables → ℤ → Result Tables
  unfolding disconnect_tip rebuild_mempool
  disconnect_and_rebuild tables now = do
    disconnected ← disconnect_tip tables
    rebuild_mempool disconnected.2 disconnected.1 now
