-- ===== src/Ledger/Reorg.antt =====
-- internal/ledger/reorg.go: replacing the end of the chain by blocks with more work.
pub mod Work
use entcoin.Base.{
  ℕ, zero, suc, ◌+◌, ◌-◌, ◌*◌, ◌^◌, ◌||◌, List, [], ◌∷◌, length, get_elem?, ltb, leb, eqb, Result,
  ok, err, fail_if, or_fail, ◌>>=◌, ◌>>◌, if◌then◌else◌, bad_ancestor, beyond_prune,
  insufficient_work, index_out_of_range,
}
use entcoin.Base.Int.{ℤ}
use entcoin.Core.Model.{Block, max_pending_transactions}
use entcoin.Core.Encoding.{Crypto}
use entcoin.Ledger.Tables.{Tables, max_int64, tip_from_query, commit}
use entcoin.Ledger.Mempool.{rebuild_mempool}
use entcoin.Ledger.Connect.{connect_block_at_time}
use entcoin.Ledger.Disconnect.{disconnect_tip}
use entcoin.Ledger.Collector.{Collector, new_collector, collect, orphaned_transactions}

abbrev pub max_orphaned_mempool_bytes : ℕ
max_orphaned_mempool_bytes = 64 * 2 ^ 20

module _ ⦃c : Crypto⦄ where
  -- `rounds` blocks are disconnected
  unfoldable pub disconnect_blocks : ℕ → Tables → Collector → Result (Tables × Collector)
  unfolding disconnect_tip collect
  disconnect_blocks zero tables collector = ok (tables, collector)
  disconnect_blocks (suc rounds) tables collector = do
    disconnected ← disconnect_tip tables
    disconnect_blocks rounds disconnected.2 (collect collector disconnected.1)

  -- `rounds` blocks are connected, from the one of number `index`
  unfoldable pub connect_blocks : ℕ → ℕ → (ℕ → Result Block) → ℤ → Tables → Result Tables
  unfolding connect_block_at_time
  connect_blocks zero index block_at validation_time tables = ok tables
  connect_blocks (suc rounds) index block_at validation_time tables = do
    block ← block_at index
    tables' ← connect_block_at_time tables block validation_time
    connect_blocks rounds (index + 1) block_at validation_time tables'

  -- `block_at` is the callback, and `now` is read when the mempool is rebuilt
  unfoldable pub replace_in_tables : Tables → ℕ → ℕ → (ℕ → Result Block) → ℤ → ℤ → Result Tables
  unfolding tip_from_query disconnect_blocks connect_blocks new_collector orphaned_transactions
      rebuild_mempool
  replace_in_tables tables ancestor_height block_count block_at validation_time now = do
    old_tip ← tip_from_query tables
    fail_if (ltb old_tip.height ancestor_height || ltb max_int64 ancestor_height) bad_ancestor
    fail_if (ltb ancestor_height tables.pruned_through) beyond_prune
    disconnected ←
        disconnect_blocks (old_tip.height - ancestor_height) tables
          (new_collector max_pending_transactions max_orphaned_mempool_bytes)
    connected ← connect_blocks block_count 0 block_at validation_time disconnected.0
    new_tip ← tip_from_query connected
    fail_if (leb new_tip.work old_tip.work) insufficient_work
    rebuild_mempool connected (orphaned_transactions disconnected.1) now

  unfoldable pub replace_from_source_at_time :
      Tables → ℕ → ℕ → (ℕ → Result Block) → ℤ → ℤ → Result (Unit {0}) × Tables
  unfolding replace_in_tables
  replace_from_source_at_time tables ancestor_height block_count block_at validation_time now =
      if eqb block_count 0
      then (err insufficient_work, tables)
      else commit tables
          (replace_in_tables tables ancestor_height block_count block_at validation_time now)

  -- `ReplaceFrom`: the callback reads the list
  unfoldable pub replace_from : Tables → ℕ → List Block → ℤ → ℤ → Result (Unit {0}) × Tables
  unfolding replace_from_source_at_time
  replace_from tables ancestor_height blocks validation_time now =
      replace_from_source_at_time tables ancestor_height (length blocks)
        (λ index. or_fail (get_elem? blocks index) index_out_of_range) validation_time now
