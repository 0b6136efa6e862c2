-- ===== src/Ledger/Connect/Tip.antt =====
-- The tip that connectBlock of internal/ledger/apply.go leaves.
use entcoin.Base.{
  ℕ, ◌+◌, ◌<◌, ◌≡◌, zero, suc, ◌-◌, ◌^◌, true, nat_eq, refl, sym, ap, ◌∙◌, not, List, [], ◌∷◌, ◌++◌,
  ok, >>=-eq-ok, >>-eq-ok, fail_if-eq-ok, or_fail-eq-ok, ok_injective, err≢ok, length, get_elem?,
  arith, ltb,
}
use native.Mathlib.Nat.{pow-suc}
use entcoin.Base.Int.{ℤ}
use entcoin.Core.Model.{Transaction, Block}
use entcoin.Core.Amount.{subsidy}
use entcoin.Core.Encoding.{Crypto}
use entcoin.Core.Transaction.{validate_regular_transaction, validate_coinbase}
use entcoin.Core.Header.{validate_block_header_at_time}
use entcoin.Ledger.Tables.{
  Tables, Tip, last_tip, BlockRow, UtxoRecord, UndoRecord, max_int64, tip_from_query, block_work,
  last_row, tip_of, insert_row, exists_row,
}
use entcoin.Ledger.Apply.{
  with_utxos, block_row, insert_transaction, header_window_from_query, ensure_new_transaction_id,
  load_transaction_inputs, validate_input_maturity, checked_add, apply_transaction_rows,
  insert_outputs, output_addresses,
}
use entcoin.Ledger.Connect.{
  Connecting, start_connecting, connect_transaction, connect_regular, connect_coinbase,
  insert_block, has_undo_hash, insert_undo, connect_body, connect_block_at_time,
}

insert_transaction-blocks :
    (tables : Tables) (tx : Transaction) (height position : ℕ) (inputs : List UtxoRecord)
    {tables' : Tables}
    → insert_transaction tables tx height position inputs ≡ ok tables'
    → tables.blocks ≡ tables'.blocks
unfolding insert_transaction
insert_transaction-blocks tables tx height position inputs e =
    let (_, e₁) = fail_if-eq-ok (exists_row _ tables.transactions) _ _ e in
    let (_, _, e₂) = >>=-eq-ok (output_addresses tx.id 0 tx.outputs) _ e₁ in
    ap (λ t. t.blocks) (ok_injective e₂)

module _ ⦃c : Crypto⦄ where
  connect_transaction-blocks :
      (height position : ℕ) (tx : Transaction) (state : Connecting) {state' : Connecting}
      → connect_transaction height position tx state ≡ ok state'
      → state.tables.blocks ≡ state'.tables.blocks
  unfolding connect_transaction
  connect_transaction-blocks height position tx state e =
      let (_, e₁) = fail_if-eq-ok tx.coinbase _ _ e in
      let (_, e₂) = >>-eq-ok (ensure_new_transaction_id state.tables tx.id state.seen) _ e₁ in
      let (loaded, _, e₃) = >>=-eq-ok (load_transaction_inputs state.tables tx.inputs [] []) _ e₂ in
      let (fee, _, e₄) = >>=-eq-ok (validate_regular_transaction tx loaded.1) _ e₃ in
      let (_, e₅) = >>-eq-ok (validate_input_maturity loaded.0 height) _ e₄ in
      let (fees, _, e₆) = >>=-eq-ok (checked_add state.fees fee) _ e₅ in
      let (applied, _, e₇) =
        >>=-eq-ok (apply_transaction_rows state.tables.utxos tx height loaded.0) _ e₆ in
      let (tables, inserted, e₈) =
        >>=-eq-ok
          (insert_transaction (with_utxos state.tables applied.0) tx height position loaded.0) _
          e₇ in
      insert_transaction-blocks (with_utxos state.tables applied.0) tx height position loaded.0
        inserted
      ∙ ap (λ s. s.tables.blocks) (ok_injective e₈)

  connect_regular-blocks :
      (height position : ℕ) (txs : List Transaction) (state : Connecting) {state' : Connecting}
      → connect_regular height position txs state ≡ ok state'
      → state.tables.blocks ≡ state'.tables.blocks
  unfolding connect_regular
  connect_regular-blocks height position [] state e = ap (λ s. s.tables.blocks) (ok_injective e)
  connect_regular-blocks height position (tx ∷ rest) state e =
      let (next, first, e') = >>=-eq-ok (connect_transaction height position tx state) _ e in
      connect_transaction-blocks height position tx state first
      ∙ connect_regular-blocks height (position + 1) rest next e'

  connect_coinbase-blocks :
      (height : ℕ) (tx : Transaction) (state : Connecting) {result : Tables × UndoRecord}
      → connect_coinbase height tx state ≡ ok result
      → state.tables.blocks ≡ result.0.blocks
  unfolding connect_coinbase
  connect_coinbase-blocks height tx state e =
      let (_, e₁) = >>-eq-ok (ensure_new_transaction_id state.tables tx.id state.seen) _ e in
      let (maximum, _, e₂) = >>=-eq-ok (checked_add (subsidy height) state.fees) _ e₁ in
      let (_, e₃) = >>-eq-ok (validate_coinbase tx maximum) _ e₂ in
      let (outputs, _, e₄) =
        >>=-eq-ok (insert_outputs tx.id height true 0 tx.outputs state.tables.utxos []) _ e₃ in
      let (tables, inserted, e₅) =
        >>=-eq-ok (insert_transaction (with_utxos state.tables outputs.0) tx height 0 []) _ e₄ in
      insert_transaction-blocks (with_utxos state.tables outputs.0) tx height 0 [] inserted
      ∙ ap (λ r. r.0.blocks) (ok_injective e₅)

  insert_undo-blocks :
      (tables : Tables) (block : Block) (undo : UndoRecord) {tables' : Tables}
      → insert_undo tables block undo ≡ ok tables'
      → tables.blocks ≡ tables'.blocks
  unfolding insert_undo
  insert_undo-blocks tables block undo e =
      let (_, e₁) = fail_if-eq-ok (has_undo_hash block.hash tables.block_undo) _ _ e in
      let (rows, _, e₂) = >>=-eq-ok (insert_row block.height _ tables.block_undo) _ e₁ in
      ap (λ t. t.blocks) (ok_injective e₂)

  insert_block-blocks :
      (tables : Tables) (block : Block) (work : ℕ) {tables' : Tables}
      → insert_block tables block work ≡ ok tables'
      → tables.blocks ++ (block_row block work ∷ []) ≡ tables'.blocks
  unfolding insert_block
  insert_block-blocks tables block work e =
      let (_, e') = fail_if-eq-ok (exists_row _ tables.blocks) _ _ e in
      ap (λ t. t.blocks) (ok_injective e')

  pub connect_body-blocks :
      (tables : Tables) (block : Block) (work : ℕ) (txs : List Transaction) {tables' : Tables}
      → connect_body tables block work txs ≡ ok tables'
      → tables.blocks ++ (block_row block work ∷ []) ≡ tables'.blocks
  connect_body-blocks tables block work [] e = absurd (err≢ok e)
  connect_body-blocks tables block work (coinbase ∷ regular) e =
      let (_, e₁) = fail_if-eq-ok (not coinbase.coinbase) _ _ e in
      let (tables₁, first, e₂) = >>=-eq-ok (insert_block tables block work) _ e₁ in
      let (connected, second, e₃) =
        >>=-eq-ok (connect_regular block.height 1 regular (start_connecting tables₁)) _ e₂ in
      let (finished, third, e₄) =
        >>=-eq-ok (connect_coinbase block.height coinbase connected) _ e₃ in
      insert_block-blocks tables block work first
      ∙ connect_regular-blocks block.height 1 regular (start_connecting tables₁) second
      ∙ connect_coinbase-blocks block.height coinbase connected third
      ∙ insert_undo-blocks finished.0 block finished.1 e₄

last_row_append :
    (row last : BlockRow) (rows : List BlockRow) → last_row row (rows ++ (last ∷ [])) ≡ last
last_row_append row last [] = refl
last_row_append row last (next ∷ rows) = last_row_append next last rows

last_tip_append :
    (rows : List BlockRow) (row : BlockRow) → last_tip (rows ++ (row ∷ [])) ≡ ok (tip_of row)
last_tip_append [] row = refl
last_tip_append (first ∷ rows) row = ap (λ r. ok (tip_of r)) (last_row_append first row rows)

pub tip_from_query_append :
    (tables tables' : Tables) (row : BlockRow)
    → tables.blocks ++ (row ∷ []) ≡ tables'.blocks
    → tip_from_query tables' ≡ ok (tip_of row)
unfolding tip_from_query
tip_from_query_append tables tables' row e = sym (ap last_tip e) ∙ last_tip_append tables.blocks row

power_positive : (n : ℕ) → 0 < 2 ^ n
power_positive zero = omega arith
power_positive (suc n) = omega (arith, pow-suc 2 n, power_positive n)

block_work_positive : (difficulty : ℕ) → 0 < block_work difficulty
unfolding block_work
block_work_positive difficulty = power_positive difficulty

tips_agree :
    (tables : Tables) {tip tip' : Tip}
    → tip_from_query tables ≡ ok tip
    → tip_from_query tables ≡ ok tip'
    → tip ≡ tip'
tips_agree tables e f = ok_injective (sym e ∙ f)

-- A connected block is the tip, and the work of the chain grows by the work of the block, which is
-- positive.
pub connect_block_at_time-tip :
    ⦃c : Crypto⦄ (tables : Tables) (block : Block) (now : ℤ) (tip : Tip) {tables' : Tables}
    → tip_from_query tables ≡ ok tip
    → connect_block_at_time tables block now ≡ ok tables'
    → (tip' : Tip) × (tip_from_query tables' ≡ ok tip')
      × (tip'.height ≡ block.height)
      × (tip'.hash ≡ block.hash)
      × (tip'.work ≡ tip.work + block_work block.difficulty)
      × (tip.work < tip'.work)
unfolding connect_block_at_time
connect_block_at_time-tip tables block now tip {tables'} found e =
    let (old, e₀, e₁) = >>=-eq-ok (tip_from_query tables) _ e in
    let (_, e₂) = fail_if-eq-ok (ltb max_int64 block.height) _ _ e₁ in
    let (headers, _, e₃) = >>=-eq-ok (header_window_from_query tables old.height) _ e₂ in
    let (previous, _, e₄) = or_fail-eq-ok (get_elem? headers (length headers - 1)) _ _ e₃ in
    let (_, e₅) = >>-eq-ok (validate_block_header_at_time block previous headers now) _ e₄ in
    let row = block_row block (old.work + block_work block.difficulty) in
    let same = ap (λ t. t.work) (tips_agree tables e₀ found) in
    let work : old.work + block_work block.difficulty ≡ tip.work + block_work block.difficulty =
      ap (λ w. w + block_work block.difficulty) same in
    let appended =
      connect_body-blocks tables block (old.work + block_work block.difficulty) block.transactions
        e₅ in
    (
      tip_of row,
      tip_from_query_append tables tables' row appended,
      refl,
      refl,
      work,
      omega (arith, work, block_work_positive block.difficulty),
    )
