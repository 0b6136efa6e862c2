-- ===== src/Ledger/Undo/Block.antt =====
-- Connecting a whole block keeps it reversible: connectBlock of internal/ledger/apply.go.
use entcoin.Base.{
  ℕ, ◌+◌, ◌≡◌, ◌⊎◌, inl, inr, refl, sym, ap, ◌∙◌, subst, Bool, true, false, none, List, [], ◌∷◌,
  ◌++◌, All, arith, Bytes, ok, >>=-eq-ok, >>-eq-ok, fail_if-eq-ok, fail_if_ok, ok_injective,
  append-nil, bytes_eq, bytes_Eq, nat_eq, duplicate_transaction, already_exists,
}
use entcoin.Base.Map.{Map, get, contains, put, contains-put_self, contains-put_mono}
use entcoin.Core.Model.{Transaction, Outpoint, outpoint_Eq}
use entcoin.Core.Amount.{subsidy}
use entcoin.Core.Encoding.{Crypto}
use entcoin.Core.Transaction.{validate_regular_transaction, validate_coinbase}
use entcoin.Ledger.Tables.{Tables, TransactionRow, UtxoRecord, UndoRecord, exists_row}
use entcoin.Ledger.Apply.{
  transaction_row, outpoint_at, with_utxos, checked_add, ensure_new_transaction_id,
  load_transaction_inputs, validate_input_maturity, delete_inputs, insert_outputs,
  apply_transaction_rows, output_addresses, insert_transaction,
}
use entcoin.Ledger.Connect.{Connecting, connect_transaction, connect_regular, connect_coinbase}
use entcoin.Ledger.Undo.{Coins, listed, Reversible, true-false}
use entcoin.Ledger.Undo.Loop.{IsLoaded, load_transaction_inputs-IsLoaded, delete_inputs-Reversible}
use entcoin.Ledger.Undo.Outputs.{Inserted, insert_outputs-Inserted}

abbrev pub has_id : Bytes → TransactionRow → Bool
has_id id row = bytes_eq row.id id

-- Every unspent output belongs to a transaction of the table.
abbrev pub IsIndexed : Tables → Type 0
IsIndexed tables =
    (k : Outpoint)
    → exists_row (has_id k.tx_id) tables.transactions ≡ false
    → get k tables.utxos ≡ none

exists_row-append :
    (test : TransactionRow → Bool) (xs ys : List TransactionRow)
    → exists_row test (xs ++ ys) ≡ false
    → exists_row test xs ≡ false
unfolding exists_row
exists_row-append test [] ys h = refl
exists_row-append test (x ∷ xs) ys h = ground (arith, exists_row-append test xs ys, h)

-- What the loop keeps, from the tables `start` on.
pub record Undoable (start : Tables) (state : Connecting) : Type 0 where
  pub reversible : Reversible start.utxos state.tables.utxos state.undo.spent state.undo.created
  pub created_seen :
      (k : Outpoint) → listed k state.undo.created ≡ true → contains k.tx_id state.seen ≡ true
  pub indexed :
      (id : Bytes)
      → exists_row (has_id id) state.tables.transactions ≡ false
      → exists_row (has_id id) start.transactions ≡ false

ensure_new_lem :
    (tables : Tables) (id : Bytes) (seen : Map Bytes (Unit {0}))
    → ensure_new_transaction_id tables id seen ≡ ok tt
    → (contains id seen ≡ false) × (exists_row (has_id id) tables.transactions ≡ false)
unfolding ensure_new_transaction_id
ensure_new_lem tables id seen e =
    let (new, e') = fail_if-eq-ok (contains id seen) duplicate_transaction _ e in
    (new, fail_if_ok (exists_row (has_id id) tables.transactions) already_exists e')

-- The outputs of a transaction that is new to the block and to the tables.
insert_new_outputs :
    (start : Tables) (state : Connecting) (tx : Transaction) (utxos : Coins)
    (spent : List UtxoRecord) (height : ℕ) (coinbase : Bool) {result : Coins × List Outpoint}
    → IsIndexed start
    → Undoable start state
    → ensure_new_transaction_id state.tables tx.id state.seen ≡ ok tt
    → Reversible start.utxos utxos spent state.undo.created
    → insert_outputs tx.id height coinbase 0 tx.outputs utxos [] ≡ ok result
    → Inserted start.utxos spent state.undo.created tx.id result.0 result.1
insert_new_outputs start state tx utxos spent height coinbase indexed h fresh reversible e =
    let (unseen, absent) = ensure_new_lem state.tables tx.id state.seen fresh in
    let whole = append-nil state.undo.created in
    insert_outputs-Inserted start.utxos spent state.undo.created tx.id height coinbase 0 tx.outputs
      utxos [] (λ i. indexed (outpoint_at tx.id i) (h.indexed tx.id absent))
      (record {
        reversible = subst (Reversible start.utxos utxos spent) (sym whole) reversible;
        owners = λ k inside. inl (sym (ap (listed k) whole) ∙ inside);
      })
      (λ k inside same. absurd (
        true-false (
          sym (h.created_seen k (sym (ap (listed k) whole) ∙ inside))
          ∙ ap (λ id. contains id state.seen) same
          ∙ unseen)))
      e

insert_transaction_lem :
    (tables : Tables) (tx : Transaction) (height position : ℕ) (inputs : List UtxoRecord)
    {tables' : Tables}
    → insert_transaction tables tx height position inputs ≡ ok tables'
    → (tables.utxos ≡ tables'.utxos)
      × (tables.transactions ++ transaction_row tx height position ∷ [] ≡ tables'.transactions)
unfolding insert_transaction
insert_transaction_lem tables tx height position inputs e =
    let (_, e₁) = fail_if-eq-ok (exists_row _ tables.transactions) _ _ e in
    let (_, _, e₂) = >>=-eq-ok (output_addresses tx.id 0 tx.outputs) _ e₁ in
    let same = ok_injective e₂ in (ap (λ t. t.utxos) same, ap (λ t. t.transactions) same)

insert_transaction-indexed :
    (start tables : Tables) (tx : Transaction) (height position : ℕ) (inputs : List UtxoRecord)
    {tables' : Tables}
    → ((id : Bytes)
        → exists_row (has_id id) tables.transactions ≡ false
        → exists_row (has_id id) start.transactions ≡ false)
    → insert_transaction tables tx height position inputs ≡ ok tables'
    → (id : Bytes) → exists_row (has_id id) tables'.transactions ≡ false
    → exists_row (has_id id) start.transactions ≡ false
insert_transaction-indexed start tables tx height position inputs h e id absent = h id (
    exists_row-append (has_id id) tables.transactions (transaction_row tx height position ∷ []) (
      ap (exists_row (has_id id)) (insert_transaction_lem tables tx height position inputs e).1
      ∙ absent))

put_seen :
    (earlier created : List Outpoint) (tx_id : Bytes) (seen : Map Bytes (Unit {0}))
    → ((k : Outpoint) → listed k earlier ≡ true → contains k.tx_id seen ≡ true)
    → ((k : Outpoint)
        → listed k (earlier ++ created) ≡ true
        → (listed k earlier ≡ true) ⊎ (k.tx_id ≡ tx_id))
    → (k : Outpoint) → listed k (earlier ++ created) ≡ true
    → contains k.tx_id (put tx_id tt seen) ≡ true
put_seen earlier created tx_id seen h owners k inside = elim (owners k inside) [
  | inl old ↦ contains-put_mono tx_id k.tx_id tt seen (h k old)
  | inr own ↦ ap (λ id. contains id (put tx_id tt seen)) own ∙ contains-put_self tx_id tt seen
]

-- The spent inputs of a transaction.
spend_inputs :
    (start : Tables) (state : Connecting) (tx : Transaction) (records : List UtxoRecord)
    {left : Coins}
    → Undoable start state
    → All (IsLoaded state.tables.utxos) records
    → delete_inputs records state.tables.utxos ≡ ok left
    → Reversible start.utxos left (state.undo.spent ++ records) state.undo.created
spend_inputs start state tx records h loaded e =
    delete_inputs-Reversible start.utxos state.tables.utxos state.undo.created records
      state.tables.utxos state.undo.spent h.reversible (λ k inside. refl) loaded e

apply_lem :
    (utxos : Coins) (tx : Transaction) (height : ℕ) (inputs : List UtxoRecord)
    {result : Coins × List Outpoint}
    → apply_transaction_rows utxos tx height inputs ≡ ok result
    → (left : Coins) × (delete_inputs inputs utxos ≡ ok left)
      × (insert_outputs tx.id height false 0 tx.outputs left [] ≡ ok result)
unfolding apply_transaction_rows
apply_lem utxos tx height inputs e = >>=-eq-ok (delete_inputs inputs utxos) _ e

module _ ⦃c : Crypto⦄ (start : Tables) (is_indexed : IsIndexed start) where
  connect_transaction-Undoable :
      (height position : ℕ) (tx : Transaction) (state : Connecting) {state' : Connecting}
      → Undoable start state
      → connect_transaction height position tx state ≡ ok state'
      → Undoable start state'
  unfolding connect_transaction
  connect_transaction-Undoable height position tx state h e =
      let (_, e₁) = fail_if-eq-ok tx.coinbase _ _ e in
      let (fresh, e₂) = >>-eq-ok (ensure_new_transaction_id state.tables tx.id state.seen) _ e₁ in
      let (loaded, read, e₃) =
        >>=-eq-ok (load_transaction_inputs state.tables tx.inputs [] []) _ e₂ in
      let (fee, _, e₄) = >>=-eq-ok (validate_regular_transaction tx loaded.1) _ e₃ in
      let (_, e₅) = >>-eq-ok (validate_input_maturity loaded.0 height) _ e₄ in
      let (fees, _, e₆) = >>=-eq-ok (checked_add state.fees fee) _ e₅ in
      let (applied, did, e₇) =
        >>=-eq-ok (apply_transaction_rows state.tables.utxos tx height loaded.0) _ e₆ in
      let (tables, stored, e₈) =
        >>=-eq-ok
          (insert_transaction (with_utxos state.tables applied.0) tx height position loaded.0) _
          e₇ in
      let (left, deleted, inserted) = apply_lem state.tables.utxos tx height loaded.0 did in
      let spent =
        spend_inputs start state tx loaded.0 h
          (load_transaction_inputs-IsLoaded state.tables tx.inputs [] [] tt read) deleted in
      let outputs =
        insert_new_outputs start state tx left (state.undo.spent ++ loaded.0) height false
          is_indexed h fresh spent inserted in
      subst (Undoable start) (ok_injective e₈) (record {
        reversible =
            subst
              (λ u.
                Reversible start.utxos u (state.undo.spent ++ loaded.0)
                  (state.undo.created ++ applied.1))
              (insert_transaction_lem (with_utxos state.tables applied.0) tx height position
                loaded.0 stored).0
              outputs.reversible;
        created_seen =
            put_seen state.undo.created applied.1 tx.id state.seen h.created_seen outputs.owners;
        indexed =
            insert_transaction-indexed start (with_utxos state.tables applied.0) tx height position
              loaded.0 h.indexed stored;
      })

  pub connect_regular-Undoable :
      (height position : ℕ) (txs : List Transaction) (state : Connecting) {state' : Connecting}
      → Undoable start state
      → connect_regular height position txs state ≡ ok state'
      → Undoable start state'
  unfolding connect_regular
  connect_regular-Undoable height position [] state h e = subst (Undoable start) (ok_injective e) h
  connect_regular-Undoable height position (tx ∷ rest) state h e =
      let (next, first, e') = >>=-eq-ok (connect_transaction height position tx state) _ e in
      connect_regular-Undoable height (position + 1) rest next
        (connect_transaction-Undoable height position tx state h first) e'

  pub connect_coinbase-Reversible :
      (height : ℕ) (tx : Transaction) (state : Connecting) {result : Tables × UndoRecord}
      → Undoable start state
      → connect_coinbase height tx state ≡ ok result
      → Reversible start.utxos result.0.utxos result.1.spent result.1.created
  unfolding connect_coinbase
  connect_coinbase-Reversible height tx state h e =
      let (fresh, e₁) = >>-eq-ok (ensure_new_transaction_id state.tables tx.id state.seen) _ e in
      let (maximum, _, e₂) = >>=-eq-ok (checked_add (subsidy height) state.fees) _ e₁ in
      let (_, e₃) = >>-eq-ok (validate_coinbase tx maximum) _ e₂ in
      let (outputs, inserted, e₄) =
        >>=-eq-ok (insert_outputs tx.id height true 0 tx.outputs state.tables.utxos []) _ e₃ in
      let (tables, stored, e₅) =
        >>=-eq-ok (insert_transaction (with_utxos state.tables outputs.0) tx height 0 []) _ e₄ in
      let done =
        insert_new_outputs start state tx state.tables.utxos state.undo.spent height true is_indexed
          h fresh h.reversible inserted in
      subst (λ r. Reversible start.utxos r.0.utxos r.1.spent r.1.created) (ok_injective e₅)
        (subst (λ u. Reversible start.utxos u state.undo.spent (state.undo.created ++ outputs.1))
          (insert_transaction_lem (with_utxos state.tables outputs.0) tx height 0 [] stored).0
          done.reversible)
