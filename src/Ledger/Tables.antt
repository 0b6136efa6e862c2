-- ===== src/Ledger/Tables.antt =====
-- The tables of internal/ledger/schema.go and the rows of internal/ledger/types.go. A table is a list
-- of rows in the order of insertion, or a map where the key is what the queries ask for. The SQL
-- statements of the source are read as operations on these; an INSERT whose key is taken fails.
-- Failures of the database itself are left out, and JSON columns hold the value that they encode.
use entcoin.Base.{
  ℕ, ◌^◌, Bool, false, ◌||◌, Option, List, [], ◌∷◌, Bytes, Eq, Result, ok, err, fail_if, ◌>>◌,
  if◌then◌else◌, constraint, no_tip,
}
use entcoin.Base.Int.{ℤ}
use entcoin.Base.Map.{Map, contains}
use entcoin.Core.Model.{TxOutput, Transaction, Block, Outpoint}

pub record Tip : Type 0 where
  pub height : ℕ
  pub hash : Bytes
  pub timestamp : ℤ
  pub difficulty : ℕ
  pub work : ℕ

pub record UtxoRecord : Type 0 where
  pub tx_id : Bytes
  pub output_index : ℕ
  pub amount : ℕ
  pub address : Bytes
  pub created_height : ℕ
  pub coinbase : Bool

abbrev pub output_of : UtxoRecord → TxOutput
output_of u = record { amount = u.amount; address = u.address }

abbrev pub outpoint_of_record : UtxoRecord → Outpoint
outpoint_of_record u = record { tx_id = u.tx_id; index = u.output_index }

pub record UndoRecord : Type 0 where
  pub spent : List UtxoRecord
  pub created : List Outpoint

pub record BlockRow : Type 0 where
  -- the columns; no transactions
  pub header : Block
  pub cumulative_work : ℕ
  -- `none` once it is pruned
  pub body : Option Block

pub record TransactionRow : Type 0 where
  pub id : Bytes
  pub block_height : ℕ
  pub tx_index : ℕ
  pub coinbase : Bool
  pub body : Option Transaction

pub record AddressRow : Type 0 where
  pub tx_id : Bytes
  pub ordinal : ℕ
  pub address : Bytes
  pub direction : ℤ
  pub amount : ℕ

pub record UtxoRow : Type 0 where
  pub amount : ℕ
  pub address : Bytes
  pub created_height : ℕ
  pub coinbase : Bool

pub record UndoRow : Type 0 where
  pub block_hash : Bytes
  pub undo : UndoRecord

pub record MempoolRow : Type 0 where
  pub tx_id : Bytes
  pub first_seen : ℤ
  pub fee : ℕ
  pub encoded_size : ℕ
  pub body : Transaction

-- `mempool_inputs` and `mempool_outputs` are keyed by the outpoint.
pub record Tables : Type 0 where
  -- of the table `meta`
  pub pruned_through : ℕ
  pub prune_depth : ℕ
  pub blocks : List BlockRow
  pub transactions : List TransactionRow
  pub transaction_addresses : List AddressRow
  pub utxos : Map Outpoint UtxoRow
  pub block_undo : Map ℕ UndoRow
  pub mempool : List MempoolRow
  pub mempool_inputs : Map Outpoint Bytes
  pub mempool_outputs : Map Outpoint TxOutput

abbrev pub max_int64 : ℕ
max_int64 = 0x7fff_ffff_ffff_ffff

-- INSERT into a table whose key is unique
unfoldable pub insert_row {ℓ κ} :
    {K : Type ℓ} {V : Type κ} ⦃e : Eq K⦄ → K → V → Map K V → Result (Map K V)
unfolding contains
insert_row key row table = fail_if (contains key table) constraint >> ok ((key, row) ∷ table)

-- `SELECT 1 FROM … WHERE …`
unfoldable pub exists_row {ℓ} : {A : Type ℓ} → (A → Bool) → List A → Bool
exists_row test [] = false
exists_row test (row ∷ rows) = test row || exists_row test rows

-- `SELECT … WHERE …`
unfoldable pub select_rows {ℓ} : {A : Type ℓ} → (A → Bool) → List A → List A
select_rows test [] = []
select_rows test (row ∷ rows) =
    let rest = select_rows test rows in if test row then row ∷ rest else rest

abbrev pub last_row {ℓ} : {A : Type ℓ} → A → List A → A
last_row row [] = row
last_row row (next ∷ rows) = last_row next rows

abbrev pub tip_of : BlockRow → Tip
tip_of row = record {
  height = row.header.height;
  hash = row.header.hash;
  timestamp = row.header.timestamp;
  difficulty = row.header.difficulty;
  work = row.cumulative_work;
}

-- Blocks are connected by height, so the last row has the greatest. The numbers of a row are in range
-- by the types here.
abbrev pub last_tip : List BlockRow → Result Tip
last_tip [] = err no_tip
last_tip (row ∷ rows) = ok (tip_of (last_row row rows))

unfoldable pub tip_from_query : Tables → Result Tip
tip_from_query tables = last_tip tables.blocks

unfoldable pub block_work : ℕ → ℕ
block_work difficulty = 2 ^ difficulty

-- What a database transaction leaves: `Commit` on success, `Rollback` on an error.
abbrev pub commit : Tables → Result Tables → Result (Unit {0}) × Tables
commit before (ok after) = (ok tt, after)
commit before (err e) = (err e, before)
