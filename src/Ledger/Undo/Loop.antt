-- ===== src/Ledger/Undo/Loop.antt =====
-- Connecting a transaction keeps the block reversible: the helpers of internal/ledger/apply.go.
use entcoin.Base.{
  ◌≡◌, inl, inr, sym, ap, ◌∙◌, subst, true, not, some, List, [], ◌∷◌, ◌++◌, All, All-append, arith,
  Bool-cases, ok, eqb, >>=-eq-ok, fail_if-eq-ok, or_fail-eq-ok, ok_injective, append_assoc,
  append-nil,
}
use entcoin.Base.Map.{
  get, contains, put, remove, contains-remove, get-remove_self, get-remove_ne, get-contains-none,
}
use entcoin.Core.Model.{TxInput, Outpoint, Utxo, outpoint_eq, outpoint_eq_iff, outpoint_Eq}
use entcoin.Core.Transaction.{outpoint_of}
use entcoin.Ledger.Tables.{Tables, UtxoRecord, outpoint_of_record, output_of}
use entcoin.Ledger.Apply.{load_utxo, load_transaction_inputs, delete_inputs}
use entcoin.Ledger.Disconnect.{row_of_record}
use entcoin.Ledger.Undo.{Coins, Reversible, true-false}
use entcoin.Ledger.Undo.Steps.{spend-Reversible}

-- A record that was read from the table.
abbrev pub IsLoaded : Coins → UtxoRecord → Type 0
IsLoaded utxos r = get (outpoint_of_record r) utxos ≡ some (row_of_record r)

load_utxo-IsLoaded :
    (tables : Tables) (outpoint : Outpoint) {r : UtxoRecord}
    → load_utxo tables outpoint ≡ ok r
    → IsLoaded tables.utxos r
unfolding load_utxo
load_utxo-IsLoaded tables outpoint e =
    let (row, found, e₁) = or_fail-eq-ok (get outpoint tables.utxos) _ _ e in
    let (_, e₂) = fail_if-eq-ok (eqb row.amount 0) _ _ e₁ in
    subst (IsLoaded tables.utxos) (ok_injective e₂) found

pub load_transaction_inputs-IsLoaded :
    (tables : Tables) (inputs : List TxInput) (records : List UtxoRecord) (utxo : Utxo)
    {result : List UtxoRecord × Utxo}
    → All (IsLoaded tables.utxos) records
    → load_transaction_inputs tables inputs records utxo ≡ ok result
    → All (IsLoaded tables.utxos) result.0
unfolding load_transaction_inputs
load_transaction_inputs-IsLoaded tables [] records utxo h e =
    subst (λ r. All (IsLoaded tables.utxos) r.0) (ok_injective e) h
load_transaction_inputs-IsLoaded tables (input ∷ rest) records utxo h e =
    let (loaded, first, e') = >>=-eq-ok (load_utxo tables (outpoint_of input)) _ e in
    load_transaction_inputs-IsLoaded tables rest (records ++ loaded ∷ [])
      (put (outpoint_of_record loaded) (output_of loaded) utxo)
      (All-append (IsLoaded tables.utxos) records (loaded ∷ []) h
        (load_utxo-IsLoaded tables (outpoint_of input) first, tt))
      e'

-- What is still in the table stands as it stood in `start`.
abbrev Within : Coins → Coins → Type 0
Within start utxos = (k : Outpoint) → contains k utxos ≡ true → get k utxos ≡ get k start

Within-remove :
    (before start utxos : Coins) (spent : List UtxoRecord) (created : List Outpoint) (j : Outpoint)
    → Reversible before utxos spent created
    → Within start utxos
    → Within start (remove j utxos)
Within-remove before start utxos spent created j h within k inside =
    elim (Bool-cases (outpoint_eq j k)) [
      | inl same ↦
          let e = (outpoint_eq_iff j k).0 same in
          absurd (
            true-false (
              sym inside
              ∙ sym (ap (λ i. contains i (remove j utxos)) e)
              ∙ get-contains-none j (remove j utxos) (get-remove_self j utxos h.unique)))
      | inr other ↦
          get-remove_ne j k utxos other
          ∙ within k (elim (Bool-cases (contains k utxos)) [
            | inl old ↦ old
            | inr absent ↦ absurd (true-false (sym inside ∙ contains-remove j k utxos absent))
          ])
    ]

pub delete_inputs-Reversible :
    (before start : Coins) (created : List Outpoint) (records : List UtxoRecord) (utxos : Coins)
    (spent : List UtxoRecord) {utxos' : Coins}
    → Reversible before utxos spent created
    → Within start utxos
    → All (IsLoaded start) records
    → delete_inputs records utxos ≡ ok utxos'
    → Reversible before utxos' (spent ++ records) created
unfolding delete_inputs
delete_inputs-Reversible before start created [] utxos spent h within loaded e =
    subst (λ u. Reversible before u (spent ++ []) created) (ok_injective e)
      (subst (λ s. Reversible before utxos s created) (sym (append-nil spent)) h)
delete_inputs-Reversible before start created (r ∷ rest) utxos spent {utxos'} h within loaded e =
    let (present, e₁) = fail_if-eq-ok (not (contains (outpoint_of_record r) utxos)) _ _ e in
    let there : contains (outpoint_of_record r) utxos ≡ true = ground (arith, present) in
    subst (λ s. Reversible before utxos' s created) (append_assoc spent (r ∷ []) rest)
      (delete_inputs-Reversible before start created rest (remove (outpoint_of_record r) utxos)
        (spent ++ r ∷ [])
        (spend-Reversible before utxos spent created r h
          (within (outpoint_of_record r) there ∙ loaded.0))
        (Within-remove before start utxos spent created (outpoint_of_record r) h within) loaded.1
        e₁)
