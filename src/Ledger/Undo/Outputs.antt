-- ===== src/Ledger/Undo/Outputs.antt =====
-- Inserting the outputs of a transaction keeps the block reversible.
use entcoin.Base.{
  ℕ, ◌+◌, ◌<◌, ◌≡◌, ◌⊎◌, inl, inr, refl, ap, subst, Bool, true, false, none, List, [], ◌∷◌, ◌++◌,
  arith, Bool-cases, Bytes, ok, ltb, >>=-eq-ok, fail_if-eq-ok, ok_injective, append_assoc,
  constraint,
}
use entcoin.Base.Map.{get, contains}
use entcoin.Core.Model.{TxOutput, Outpoint, outpoint_eq_iff, outpoint_Eq}
use entcoin.Ledger.Tables.{UtxoRow, UtxoRecord, max_int64, insert_row}
use entcoin.Ledger.Apply.{insert_outputs, outpoint_at, utxo_row}
use entcoin.Ledger.Undo.{Coins, listed, listed_snoc, Reversible}
use entcoin.Ledger.Undo.Steps.{create-Reversible}

-- Every outpoint of this identifier that the block created has a smaller index.
abbrev pub Below : Bytes → ℕ → List Outpoint → Type 0
Below tx_id index created =
    (k : Outpoint) → listed k created ≡ true → k.tx_id ≡ tx_id → k.index < index

Below-snoc :
    (tx_id : Bytes) (index : ℕ) (created : List Outpoint)
    → Below tx_id index created
    → Below tx_id (index + 1) (created ++ outpoint_at tx_id index ∷ [])
Below-snoc tx_id index created h k inside same = elim (Bool-cases (listed k created)) [
  | inl old ↦ omega (arith, h k old same)
  | inr new ↦
      let e =
        (outpoint_eq_iff k (outpoint_at tx_id index)).0
          (ground (arith, listed_snoc k (outpoint_at tx_id index) created, inside, new)) in
      omega (arith, ap (λ o. o.index) e)
]

Below-new :
    (tx_id : Bytes) (index : ℕ) (created : List Outpoint)
    → Below tx_id index created
    → listed (outpoint_at tx_id index) created ≡ false
Below-new tx_id index created h = elim (Bool-cases (listed (outpoint_at tx_id index) created)) [
  | inl old ↦ absurd (omega (arith, h (outpoint_at tx_id index) old refl))
  | inr new ↦ new
]

-- What the created outpoints of the block become.
pub record Inserted (before : Coins) (spent : List UtxoRecord) (earlier : List Outpoint)
    (tx_id : Bytes) (utxos : Coins) (created : List Outpoint) : Type 0 where
  pub reversible : Reversible before utxos spent (earlier ++ created)
  pub owners :
      (k : Outpoint)
      → listed k (earlier ++ created) ≡ true
      → (listed k earlier ≡ true) ⊎ (k.tx_id ≡ tx_id)

insert_row_lem :
    (key : Outpoint) (row : UtxoRow) (table : Coins) {table' : Coins}
    → insert_row key row table ≡ ok table'
    → (contains key table ≡ false) × ((key, row) ∷ table ≡ table')
unfolding insert_row
insert_row_lem key row table e =
    let (free, e') = fail_if-eq-ok (contains key table) constraint _ e in (free, ok_injective e')

pub insert_outputs-Inserted :
    (before : Coins) (spent : List UtxoRecord) (earlier : List Outpoint) (tx_id : Bytes)
    (height : ℕ) (coinbase : Bool) (index : ℕ) (outputs : List TxOutput) (utxos : Coins)
    (created : List Outpoint) {result : Coins × List Outpoint}
    → ((i : ℕ) → get (outpoint_at tx_id i) before ≡ none)
    → Inserted before spent earlier tx_id utxos created
    → Below tx_id index (earlier ++ created)
    → insert_outputs tx_id height coinbase index outputs utxos created ≡ ok result
    → Inserted before spent earlier tx_id result.0 result.1
unfolding insert_outputs
insert_outputs-Inserted before spent earlier tx_id height coinbase index [] utxos created absent h
      below e =
    subst (λ r. Inserted before spent earlier tx_id r.0 r.1) (ok_injective e) h
insert_outputs-Inserted before spent earlier tx_id height coinbase index (output ∷ rest) utxos
      created absent h below e =
    let k = outpoint_at tx_id index in
    let row = utxo_row output height coinbase in
    let (_, e₁) = fail_if-eq-ok (ltb max_int64 output.amount) _ _ e in
    let (utxos', inserted, e₂) = >>=-eq-ok (insert_row k row utxos) _ e₁ in
    let (free, same) = insert_row_lem k row utxos inserted in
    let regroup = append_assoc earlier created (k ∷ []) in
    let next : Inserted before spent earlier tx_id utxos' (created ++ k ∷ []) = record {
      reversible =
          subst (λ u. Reversible before u spent (earlier ++ (created ++ k ∷ []))) same
            (subst (Reversible before ((k, row) ∷ utxos) spent) regroup (
              create-Reversible before utxos spent (earlier ++ created) k row h.reversible
                (Below-new tx_id index (earlier ++ created) below) (absent index) free));
      owners = λ j inside. elim (Bool-cases (listed j (earlier ++ created))) [
        | inl old ↦ h.owners j old
        | inr new ↦ inr (
            ap (λ o. o.tx_id)
              ((outpoint_eq_iff j k).0 (
                ground (
                  arith,
                  ap (listed j) regroup,
                  inside,
                  listed_snoc j k (earlier ++ created),
                  new,
                ))))
      ];
    } in
    insert_outputs-Inserted before spent earlier tx_id height coinbase (index + 1) rest utxos'
      (created ++ k ∷ []) absent next
      (subst (Below tx_id (index + 1)) regroup (Below-snoc tx_id index (earlier ++ created) below))
      e₂
