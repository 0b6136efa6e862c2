-- ===== src/Ledger/Prune/Horizon.antt =====
-- What Prune of internal/ledger/prune.go keeps: the recent blocks whole, and every header.
use entcoin.Base.{
  ℕ, ◌+◌, ◌-◌, ◌≤◌, ◌<◌, ◌≡◌, ◌⊎◌, nat_eq, Bool, List, [], ◌∷◌, if◌then◌else◌, All, none,
}
use entcoin.Base.Map.{Map, get}
use entcoin.Ledger.Tables.{Tables, BlockRow, TransactionRow}
use entcoin.Ledger.Prune.{prune_through}

-- Above the horizon a row keeps its body, and every row keeps its header and work.
abbrev pub KeepsRows : ℕ → List BlockRow → List BlockRow → Type 0
KeepsRows cutoff [] [] = Unit
KeepsRows cutoff [] (row' ∷ rows') = ⊥
KeepsRows cutoff (row ∷ rows) [] = ⊥
KeepsRows cutoff (row ∷ rows) (row' ∷ rows') =
    (row'.header ≡ row.header)
    × (row'.cumulative_work ≡ row.cumulative_work)
    × (cutoff < row.header.height → row' ≡ row)
    × KeepsRows cutoff rows rows'

-- A row of `transactions` keeps its body above the horizon and at the genesis block, and what places it
-- everywhere.
abbrev pub KeepsTransactions : ℕ → List TransactionRow → List TransactionRow → Type 0
KeepsTransactions cutoff [] [] = Unit
KeepsTransactions cutoff [] (row' ∷ rows') = ⊥
KeepsTransactions cutoff (row ∷ rows) [] = ⊥
KeepsTransactions cutoff (row ∷ rows) (row' ∷ rows') =
    (row'.id ≡ row.id)
    × (row'.block_height ≡ row.block_height)
    × (row'.tx_index ≡ row.tx_index)
    × (row'.coinbase ≡ row.coinbase)
    × ((cutoff < row.block_height) ⊎ (row.block_height ≡ 0) → row'.body ≡ row.body)
    × KeepsTransactions cutoff rows rows'

-- What a reorganisation above the horizon needs is still there.
pub record Retained (horizon : ℕ) (before after : Tables) : Type 0 where
  pub horizon_grows : before.pruned_through ≤ after.pruned_through
  pub horizon_is : after.pruned_through ≡ horizon
  pub rows_kept : KeepsRows horizon before.blocks after.blocks
  pub transactions_kept : KeepsTransactions horizon before.transactions after.transactions
  pub undo_kept :
      (height : ℕ) → horizon < height → get height after.block_undo ≡ get height before.block_undo
  pub addresses_kept : after.transaction_addresses ≡ before.transaction_addresses
  pub coins_kept : after.utxos ≡ before.utxos

-- Between the genesis block and the horizon no body and no undo record is left.
pub record Dropped (horizon : ℕ) (after : Tables) : Type 0 where
  pub bodies_gone :
      All
        (λ row. (1 ≤ row.header.height) × (row.header.height ≤ horizon) → row.body ≡ none)
        after.blocks
  pub transactions_gone :
      All
        (λ row. (1 ≤ row.block_height) × (row.block_height ≤ horizon) → row.body ≡ none)
        after.transactions
  pub undo_gone :
      (height : ℕ) → (1 ≤ height) × (height ≤ horizon) → get height after.block_undo ≡ none

abbrev prune_choice : Tables → ℕ → ℕ → Bool → ℕ × Tables
prune_choice tables height retain kept =
    if kept
    then (tables.pruned_through, tables)
    else (height - retain, prune_through tables (height - retain))

abbrev PruneOutcome : Tables → ℕ → ℕ → ℕ × Tables → Type 0
PruneOutcome tables height retain (horizon, after) =
    Retained horizon tables after
    × (((horizon ≡ tables.pruned_through) × (after ≡ tables))
        ⊎ ((horizon + retain ≡ height) × Dropped horizon after))
