-- ===== src/Ledger/Import.antt =====
-- internal/ledger/import.go: the migration of a replayed state into a fresh ledger.
use entcoin.Base.{
  ℕ, ◌+◌, ◌||◌, not, List, [], ◌∷◌, map, length, drop, bytes_eq, ltb, leb, eqb, Result, ok, fail_if,
  ◌>>=◌, ◌>>◌, already_imported, pending_limit, chain_exhausted,
}
use entcoin.Base.Int.{ℤ}
use entcoin.Core.Model.{Block, State, max_pending_transactions}
use entcoin.Core.Encoding.{Crypto}
use entcoin.Core.Header.{genesis_block}
use entcoin.Core.State.{validate_confirmed}
use entcoin.Ledger.Tables.{Tables, tip_from_query, commit, max_int64}
use entcoin.Ledger.Mempool.{clear_mempool, repopulate_mempool}
use entcoin.Ledger.Connect.{connect_block_at_time}

module _ ⦃c : Crypto⦄ (clock : ℕ → ℤ) where
  -- block number `index` is connected at its own reading of the clock
  unfoldable pub import_blocks : ℕ → List Block → Tables → Result Tables
  unfolding connect_block_at_time
  import_blocks index [] tables = ok tables
  import_blocks index (block ∷ rest) tables = do
    tables' ← connect_block_at_time tables block (clock index)
    import_blocks (index + 1) rest tables'

  -- a `state` that is not nil
  unfoldable pub import_into : Tables → State → ℤ → Result Tables
  unfolding validate_confirmed tip_from_query genesis_block import_blocks repopulate_mempool
      bytes_eq
  import_into tables state first_seen = do
    validate_confirmed clock state
    fail_if (ltb max_pending_transactions (length state.pending)) pending_limit
    tip ← tip_from_query tables
    fail_if (not (eqb tip.height 0) || not (bytes_eq tip.hash genesis_block.hash)) already_imported
    fail_if (not (eqb (length tables.transactions) 0)) already_imported
    imported ← import_blocks 1 (drop 1 state.blocks) (clear_mempool tables)
    imported_tip ← tip_from_query imported
    fail_if (leb max_int64 imported_tip.height) chain_exhausted
    repopulate_mempool imported
        (map (λ transaction. record { transaction = transaction; first_seen = first_seen })
          state.pending)
        (imported_tip.height + 1)

  unfoldable pub import_state : Tables → State → ℤ → Result (Unit {0}) × Tables
  unfolding import_into
  import_state tables state first_seen = commit tables (import_into tables state first_seen)
