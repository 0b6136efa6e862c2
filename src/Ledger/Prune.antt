-- ===== src/Ledger/Prune.antt =====
-- internal/ledger/prune.go: dropping the bodies and undo records of old blocks.
pub mod Horizon
use entcoin.Base.{
  Error, ℕ, ◌+◌, ◌-◌, Bool, ◌&&◌, ◌||◌, not, none, List, [], ◌∷◌, map, length, drop, bytes_eq, ltb,
  leb, eqb, Result, ok, err, fail_if, ◌>>=◌, ◌>>◌, if◌then◌else◌, prune_depth, prune_retention,
  already_imported, pending_limit, chain_exhausted,
}
use entcoin.Base.Int.{ℤ}
use entcoin.Base.Map.{Map}
use entcoin.Core.Model.{first_adjustment, Block, Transaction, State, max_pending_transactions}
use entcoin.Core.Amount.{emission_blocks}
use entcoin.Core.Encoding.{Crypto}
use entcoin.Core.Header.{genesis_block}
use entcoin.Core.State.{validate_confirmed}
use entcoin.Ledger.Tables.{
  Tables, BlockRow, TransactionRow, UndoRow, tip_from_query, commit, max_int64,
}
use entcoin.Ledger.Mempool.{PendingTransaction, clear_mempool, repopulate_mempool}
use entcoin.Ledger.Connect.{connect_block_at_time}

abbrev pub minimum_prune_depth : ℕ
minimum_prune_depth = first_adjustment

abbrev pub maximum_prune_depth : ℕ
maximum_prune_depth = emission_blocks

unfoldable pub validate_prune_depth : ℕ → Result (Unit {0})
validate_prune_depth depth =
    if eqb depth 0
    then ok tt
    else fail_if (ltb depth minimum_prune_depth || ltb maximum_prune_depth depth) Error.prune_depth

unfoldable pub set_prune_depth : Tables → ℕ → Result (Unit {0}) × Tables
unfolding validate_prune_depth
set_prune_depth tables depth =
    commit tables (validate_prune_depth depth >> ok (record tables { prune_depth = depth }))

-- `BETWEEN 1 AND cutoff`
abbrev pub is_pruned : ℕ → ℕ → Bool
is_pruned cutoff height = leb 1 height && leb height cutoff

abbrev pub drop_block_body : ℕ → BlockRow → BlockRow
drop_block_body cutoff row =
    if is_pruned cutoff row.header.height then record row { body = none } else row

abbrev pub drop_transaction_body : ℕ → TransactionRow → TransactionRow
drop_transaction_body cutoff row =
    if is_pruned cutoff row.block_height then record row { body = none } else row

unfoldable pub drop_undo : ℕ → Map ℕ UndoRow → Map ℕ UndoRow
drop_undo cutoff [] = []
drop_undo cutoff ((height, row) ∷ rows) =
    let rest = drop_undo cutoff rows in
    if is_pruned cutoff height then rest else (height, row) ∷ rest

unfoldable pub prune_through : Tables → ℕ → Tables
unfolding drop_undo
prune_through tables cutoff = record tables {
  pruned_through = cutoff;
  blocks = map (drop_block_body cutoff) tables.blocks;
  transactions = map (drop_transaction_body cutoff) tables.transactions;
  block_undo = drop_undo cutoff tables.block_undo;
}

-- The result is the horizon, and the tables as they are left.
unfoldable pub prune : Tables → ℕ → Result (ℕ × Tables)
unfolding tip_from_query prune_through
prune tables retain_recent = do
  fail_if (eqb retain_recent 0) prune_retention
  tip ← tip_from_query tables
  let cutoff = tip.height - retain_recent
  ok (
      if leb tip.height retain_recent || leb cutoff tables.pruned_through
      then (tables.pruned_through, tables)
      else (cutoff, prune_through tables cutoff))
