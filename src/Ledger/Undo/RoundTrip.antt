-- ===== src/Ledger/Undo/RoundTrip.antt =====
-- Disconnecting a block that was just connected gives back the unspent outputs: connectBlock of
-- internal/ledger/apply.go against disconnectTip of internal/ledger/reorg.go.
use entcoin.Base.{
  ℕ, ◌+◌, ◌-◌, ◌≡◌, refl, sym, ap, ◌∙◌, subst, Bool, true, false, ◌||◌, ◌&&◌, not, some, List, [],
  ◌∷◌, ◌++◌, arith, length, get_elem?, Bytes, ok, >>=-eq-ok, >>-eq-ok, fail_if-eq-ok, or_fail-eq-ok,
  fail_if-pass, >>=-of_ok, ok_injective, err≢ok, bytes_eq, bytes_eq_iff, eqb, ltb, nat_eq,
  constraint, tip_changed,
}
use entcoin.Base.Int.{ℤ}
use entcoin.Base.Map.{Map, get, contains, IsUnique}
use entcoin.Core.Model.{Transaction, Block, Outpoint, outpoint_Eq}
use entcoin.Core.Encoding.{Crypto}
use entcoin.Core.Header.{validate_block_header_at_time}
use entcoin.Ledger.Tables.{
  Tables, Tip, tip_of, BlockRow, UtxoRow, UndoRecord, UndoRow, exists_row, select_rows, insert_row,
  tip_from_query, block_work, max_int64,
}
use entcoin.Ledger.Apply.{undo_row, block_row, header_window_from_query}
use entcoin.Ledger.Connect.{
  start_connecting, connect_regular, connect_coinbase, insert_block, has_undo_hash, insert_undo,
  connect_body, connect_block_at_time,
}
use entcoin.Ledger.Connect.Tip.{connect_body-blocks, tip_from_query_append}
use entcoin.Ledger.Disconnect.{remove_created, restore_all, replace_utxos, delete_block, undo_block}
use entcoin.Ledger.Undo.{Reversible, listed, or_false}
use entcoin.Ledger.Undo.Steps.{start-Reversible}
use entcoin.Ledger.Undo.Restore.{IsStored, restore_lem}
use entcoin.Ledger.Undo.Block.{
  IsIndexed, has_id, Undoable, connect_regular-Undoable, connect_coinbase-Reversible,
}

-- The undo record of a connected block, and the coins that it is about.
abbrev pub Recorded : Tables → Block → Tables → Type 0
Recorded start block after =
    (undo : UndoRecord) × (get block.height after.block_undo ≡ some (undo_row block undo))
    × Reversible start.utxos after.utxos undo.spent undo.created

get_cons_height : (h : ℕ) (row : UndoRow) (m : Map ℕ UndoRow) → get h ((h, row) ∷ m) ≡ some row
unfolding get
get_cons_height h row m = ground arith

insert_undo_row_lem :
    (height : ℕ) (row : UndoRow) (table : Map ℕ UndoRow) {table' : Map ℕ UndoRow}
    → insert_row height row table ≡ ok table'
    → get height table' ≡ some row
unfolding insert_row
insert_undo_row_lem height row table e =
    let (_, e') = fail_if-eq-ok (contains height table) constraint _ e in
    sym (ap (get height) (ok_injective e')) ∙ get_cons_height height row table

module _ ⦃c : Crypto⦄ where
  insert_block_lem :
      (tables : Tables) (block : Block) (work : ℕ) {tables' : Tables}
      → insert_block tables block work ≡ ok tables'
      → (tables.utxos ≡ tables'.utxos) × (tables.transactions ≡ tables'.transactions)
  unfolding insert_block
  insert_block_lem tables block work e =
      let (_, e') = fail_if-eq-ok (exists_row _ tables.blocks) _ _ e in
      let same = ok_injective e' in (ap (λ t. t.utxos) same, ap (λ t. t.transactions) same)

  insert_undo_lem :
      (start tables : Tables) (block : Block) (undo : UndoRecord) {tables' : Tables}
      → Reversible start.utxos tables.utxos undo.spent undo.created
      → insert_undo tables block undo ≡ ok tables'
      → Recorded start block tables'
  unfolding insert_undo
  insert_undo_lem start tables block undo h e =
      let (_, e₁) = fail_if-eq-ok (has_undo_hash block.hash tables.block_undo) _ _ e in
      let (rows, inserted, e') =
        >>=-eq-ok (insert_row block.height (undo_row block undo) tables.block_undo) _ e₁ in
      let same = ok_injective e' in
      (
        undo,
        sym (ap (λ t. get block.height t.block_undo) same)
            ∙ insert_undo_row_lem block.height (undo_row block undo) tables.block_undo inserted,
        subst (λ t. Reversible start.utxos t.utxos undo.spent undo.created) same h,
      )

  start_lem :
      (start tables : Tables)
      → IsUnique start.utxos
      → start.utxos ≡ tables.utxos
      → start.transactions ≡ tables.transactions
      → Undoable start (start_connecting tables)
  unfolding listed
  start_lem start tables unique coins rows = record {
    reversible =
        subst (λ u. Reversible start.utxos u [] []) coins (start-Reversible start.utxos unique);
    created_seen = λ k inside. cc;
    indexed = λ id absent. ap (exists_row (has_id id)) rows ∙ absent;
  }

  connect_body-Recorded :
      (start : Tables) (block : Block) (work : ℕ) (txs : List Transaction) {after : Tables}
      → IsIndexed start
      → IsUnique start.utxos
      → connect_body start block work txs ≡ ok after
      → Recorded start block after
  connect_body-Recorded start block work [] indexed unique e = absurd (err≢ok e)
  connect_body-Recorded start block work (coinbase ∷ regular) indexed unique e =
      let (_, e₁) = fail_if-eq-ok (not coinbase.coinbase) _ _ e in
      let (tables₁, first, e₂) = >>=-eq-ok (insert_block start block work) _ e₁ in
      let (connected, second, e₃) =
        >>=-eq-ok (connect_regular block.height 1 regular (start_connecting tables₁)) _ e₂ in
      let (finished, third, e₄) =
        >>=-eq-ok (connect_coinbase block.height coinbase connected) _ e₃ in
      let (coins, rows) = insert_block_lem start block work first in
      let undoable =
        connect_regular-Undoable start indexed block.height 1 regular (start_connecting tables₁)
          (start_lem start tables₁ unique coins rows) second in
      insert_undo_lem start finished.0 block finished.1
        (connect_coinbase-Reversible start indexed block.height coinbase connected undoable third)
        e₄

-- The row of the block, found among the others and taken out again.
abbrev is_row : Block → BlockRow → Bool
is_row block row = eqb row.header.height block.height && bytes_eq row.header.hash block.hash

abbrev has_key : Block → BlockRow → Bool
has_key block row = eqb row.header.height block.height || bytes_eq row.header.hash block.hash

is_row_self : (block : Block) (work : ℕ) → is_row block (block_row block work) ≡ true
is_row_self block work = ground (arith, bytes_eq_iff block.hash block.hash)

exists_row_last :
    (test : BlockRow → Bool) (rows : List BlockRow) (row : BlockRow)
    → test row ≡ true
    → exists_row test (rows ++ row ∷ []) ≡ true
unfolding exists_row
exists_row_last test [] row h = ground (arith, h)
exists_row_last test (first ∷ rows) row h = ground (arith, exists_row_last test rows row h)

select_rows_last :
    (block : Block) (rows : List BlockRow) (row : BlockRow)
    → exists_row (has_key block) rows ≡ false
    → is_row block row ≡ true
    → select_rows (λ r. not (is_row block r)) (rows ++ row ∷ []) ≡ rows
unfolding exists_row select_rows
select_rows_last block [] row new h = rw h refl
select_rows_last block (first ∷ rows) row new h =
    let (other, rest) = or_false (has_key block first) (exists_row (has_key block) rows) new in
    let out : is_row block first ≡ false = ground (arith, other) in
    rw (out, select_rows_last block rows row rest h) refl

module _ ⦃c : Crypto⦄ where
  insert_block_new :
      (tables : Tables) (block : Block) (work : ℕ) {tables' : Tables}
      → insert_block tables block work ≡ ok tables'
      → exists_row (has_key block) tables.blocks ≡ false
  unfolding insert_block
  insert_block_new tables block work e =
      (fail_if-eq-ok (exists_row (has_key block) tables.blocks) _ _ e).0

  connect_body_new :
      (start : Tables) (block : Block) (work : ℕ) (txs : List Transaction) {after : Tables}
      → connect_body start block work txs ≡ ok after
      → exists_row (has_key block) start.blocks ≡ false
  connect_body_new start block work [] e = absurd (err≢ok e)
  connect_body_new start block work (coinbase ∷ regular) e =
      let (_, e₁) = fail_if-eq-ok (not coinbase.coinbase) _ _ e in
      let (_, first, _) = >>=-eq-ok (insert_block start block work) _ e₁ in
      insert_block_new start block work first

  delete_block-blocks :
      (tables : Tables) (utxos : Map Outpoint UtxoRow) (block : Block)
      → (delete_block (replace_utxos tables utxos) block.height block.hash).blocks
        ≡ select_rows (λ r. not (is_row block r)) tables.blocks
  unfolding delete_block
  delete_block-blocks tables utxos block = refl

  delete_block-utxos :
      (tables : Tables) (utxos : Map Outpoint UtxoRow) (height : ℕ) (hash : Bytes)
      → (delete_block (replace_utxos tables utxos) height hash).utxos ≡ utxos
  unfolding delete_block
  delete_block-utxos tables utxos height hash = refl

  undo_block_lem :
      (tables : Tables) (tip : Tip) (undo : UndoRecord)
      (removed : Map Outpoint (Unit {0}) × Map Outpoint UtxoRow) (utxos : Map Outpoint UtxoRow)
      → remove_created undo.created [] tables.utxos ≡ ok removed
      → restore_all undo.spent removed.0 removed.1 ≡ ok utxos
      → exists_row
          (λ row. eqb row.header.height tip.height && bytes_eq row.header.hash tip.hash)
          tables.blocks
        ≡ true
      → undo_block tables tip undo
        ≡ ok (delete_block (replace_utxos tables utxos) tip.height tip.hash)
  unfolding undo_block
  undo_block_lem tables tip undo removed utxos e f found =
      >>=-of_ok _ e
      ∙ >>=-of_ok _ f
      ∙ fail_if-pass
          (not (
            exists_row
              (λ row. eqb row.header.height tip.height && bytes_eq row.header.hash tip.hash)
              tables.blocks))
          tip_changed (ok (delete_block (replace_utxos tables utxos) tip.height tip.hash))
          (ground (arith, found))

  -- The conclusion of the round trip.
  pub record Undone (before : Tables) (block : Block) (after : Tables) : Type 0 where
    pub tip : Tip
    pub undo : UndoRecord
    pub restored : Tables
    pub is_tip : tip_from_query after ≡ ok tip
    pub is_undo : get block.height after.block_undo ≡ some (undo_row block undo)
    pub undoes : undo_block after tip undo ≡ ok restored
    pub same_coins : (k : Outpoint) → get k restored.utxos ≡ get k before.utxos
    pub same_blocks : restored.blocks ≡ before.blocks

  body_Undone :
      (before : Tables) (block : Block) (work : ℕ) (txs : List Transaction) {after : Tables}
      → IsIndexed before
      → IsUnique before.utxos
      → ((k : Outpoint) (row : UtxoRow) → get k before.utxos ≡ some row → IsStored row)
      → connect_body before block work txs ≡ ok after
      → Undone before block after
  body_Undone before block work txs {after} indexed unique stored e =
      let (undo, found, reversible) =
        connect_body-Recorded before block work txs indexed unique e in
      let (removed, utxos, e₁, e₂, same) =
        restore_lem before.utxos after.utxos undo.spent undo.created stored reversible in
      let row = block_row block work in
      let appended = connect_body-blocks before block work txs e in
      let self = is_row_self block work in
      record {
        tip = tip_of row;
        undo = undo;
        restored = delete_block (replace_utxos after utxos) block.height block.hash;
        is_tip = tip_from_query_append before after row appended;
        is_undo = found;
        undoes = undo_block_lem after (tip_of row) undo removed utxos e₁ e₂ (
            sym (ap (exists_row (is_row block)) appended)
            ∙ exists_row_last (is_row block) before.blocks row self);
        same_coins =
            λ k. ap (get k) (delete_block-utxos after utxos block.height block.hash) ∙ same k;
        same_blocks =
            delete_block-blocks after utxos block
            ∙ sym (ap (select_rows (λ r. not (is_row block r))) appended)
            ∙ select_rows_last block before.blocks row (connect_body_new before block work txs e)
                self;
      }

  -- A connected block can be undone: its undo record stands under its height and hash, the loops of
  -- disconnectTip succeed on it, and they give back every unspent output as it was and the same blocks.
  -- Before the block, no outpoint has two rows, every unspent output belongs to a transaction of the
  -- table, and every row of `utxos` holds a positive amount and a height within int64 and a valid
  -- address.
  pub connect_block_at_time-Undone :
      (before : Tables) (block : Block) (now : ℤ) {after : Tables}
      → IsIndexed before
      → IsUnique before.utxos
      → ((k : Outpoint) (row : UtxoRow) → get k before.utxos ≡ some row → IsStored row)
      → connect_block_at_time before block now ≡ ok after
      → Undone before block after
  unfolding connect_block_at_time
  connect_block_at_time-Undone before block now indexed unique stored e =
      let (tip, _, e₁) = >>=-eq-ok (tip_from_query before) _ e in
      let (_, e₂) = fail_if-eq-ok (ltb max_int64 block.height) _ _ e₁ in
      let (headers, _, e₃) = >>=-eq-ok (header_window_from_query before tip.height) _ e₂ in
      let (previous, _, e₄) = or_fail-eq-ok (get_elem? headers (length headers - 1)) _ _ e₃ in
      let (_, e₅) = >>-eq-ok (validate_block_header_at_time block previous headers now) _ e₄ in
      body_Undone before block (tip.work + block_work block.difficulty) block.transactions indexed
        unique stored e₅
