-- ===== src/Ledger/Undo/Restore.antt =====
-- The undo record of a reversible block brings back the unspent outputs from before it: the loops of
-- disconnectTip in internal/ledger/reorg.go.
use entcoin.Base.{
  ◌≤◌, ◌<◌, ◌≡◌, ◌⊎◌, inl, inr, refl, sym, ap, ◌∙◌, subst, Bool, true, false, ◌||◌, Option, none,
  some, List, [], ◌∷◌, All, arith, fail_if-pass, undo_invalid, constraint, Bool-cases, Result, ok,
  ◌>>=◌, ◌>>◌, if◌then◌else◌, eqb, ltb,
}
use entcoin.Base.Map.{Map, get, contains, get-contains-none}
use entcoin.Core.Model.{Outpoint, outpoint_eq, outpoint_eq_iff, outpoint_Eq}
use entcoin.Core.Encoding.{Crypto}
use entcoin.Core.Address.{validate_address}
use entcoin.Ledger.Tables.{UtxoRow, UtxoRecord, outpoint_of_record, max_int64, insert_row}
use entcoin.Ledger.Disconnect.{
  row_of_record, remove_created, restore_row, restore_spent, restore_all,
}
use entcoin.Ledger.Undo.{
  Coins, listed, outpoints, SpentOnce, ComesFrom, Reversible, true-false, get_cons_self,
  get_cons_ne,
}
use entcoin.Ledger.Undo.Created.{remove_created_lem, listed_ne}

-- What the columns of `utxos` hold.
pub record IsStored ⦃c : Crypto⦄ (row : UtxoRow) : Type 0 where
  pub amount_positive : 0 < row.amount
  pub amount_fits : row.amount ≤ max_int64
  pub height_fits : row.created_height ≤ max_int64
  pub address_valid : validate_address row.address ≡ ok tt

module _ ⦃c : Crypto⦄ (target : Outpoint → Option UtxoRow) (created : List Outpoint)
    (set : Map Outpoint (Unit {0}))
    (same_set : (k : Outpoint) → contains k set ≡ listed k created) where
  -- What is left of the record brings `utxos` to the target.
  record Restoring (utxos : Coins) (spent : List UtxoRecord) : Type 0 where
    in_created : (k : Outpoint) → listed k created ≡ true → get k utxos ≡ target k
    in_rest :
        (k : Outpoint)
        → listed k created ≡ false
        → listed k (outpoints spent) ≡ true
        → get k utxos ≡ none
    done :
        (k : Outpoint)
        → listed k created ≡ false
        → listed k (outpoints spent) ≡ false
        → get k utxos ≡ target k
    sources :
        All
          (λ r.
            (listed (outpoint_of_record r) created ≡ true)
            ⊎ ((target (outpoint_of_record r) ≡ some (row_of_record r))
                × IsStored (row_of_record r)))
          spent
    once : SpentOnce created spent

  abbrev unless_created : UtxoRecord → Coins → Bool → Result Coins
  unless_created r utxos old = if old then ok utxos else restore_row r utxos

  restore_spent_step :
      (r : UtxoRecord) (utxos : Coins) (old : Bool)
      → listed (outpoint_of_record r) created ≡ old
      → restore_spent r set utxos ≡ unless_created r utxos old
  unfolding restore_spent
  restore_spent_step r utxos old e =
      ap (unless_created r utxos) (same_set (outpoint_of_record r) ∙ e)

  restore_row_lem :
      (r : UtxoRecord) (utxos : Coins)
      → IsStored (row_of_record r)
      → contains (outpoint_of_record r) utxos ≡ false
      → restore_row r utxos ≡ ok ((outpoint_of_record r, row_of_record r) ∷ utxos)
  unfolding restore_row insert_row
  restore_row_lem r utxos stored free =
      fail_if-pass (eqb r.amount 0 || (ltb max_int64 r.amount || ltb max_int64 r.created_height))
        undo_invalid
        (validate_address r.address >> insert_row (outpoint_of_record r) (row_of_record r) utxos)
        (ground (arith, stored))
      ∙ ap (λ v. v >> insert_row (outpoint_of_record r) (row_of_record r) utxos)
          stored.address_valid
      ∙ fail_if-pass (contains (outpoint_of_record r) utxos) constraint
          (ok ((outpoint_of_record r, row_of_record r) ∷ utxos)) free

  -- One record later.
  Restoring-skip :
      (r : UtxoRecord) (utxos : Coins) (rest : List UtxoRecord)
      → Restoring utxos (r ∷ rest)
      → listed (outpoint_of_record r) created ≡ true
      → Restoring utxos rest
  unfolding listed
  Restoring-skip r utxos rest h old =
      let other : (k : Outpoint)
          → listed k created ≡ false
          → outpoint_eq k (outpoint_of_record r) ≡ false =
        λ k new. elim (Bool-cases (outpoint_eq k (outpoint_of_record r))) [
          | inr ne ↦ ne
          | inl same ↦ absurd (
              true-false (
                sym old
                ∙ sym
                    (ap (λ j. listed j created) ((outpoint_eq_iff k (outpoint_of_record r)).0 same))
                ∙ new))
        ] in
      record {
        in_created = h.in_created;
        in_rest = λ k new later. h.in_rest k new (ground (arith, later));
        done = λ k new out. h.done k new (ground (arith, other k new, out));
        sources = h.sources.1;
        once = h.once.1;
      }

  Restoring-insert :
      (r : UtxoRecord) (utxos : Coins) (rest : List UtxoRecord)
      → Restoring utxos (r ∷ rest)
      → listed (outpoint_of_record r) created ≡ false
      → target (outpoint_of_record r) ≡ some (row_of_record r)
      → Restoring ((outpoint_of_record r, row_of_record r) ∷ utxos) rest
  unfolding listed
  Restoring-insert r utxos rest h new row =
      let k₀ = outpoint_of_record r in
      let v = row_of_record r in
      let alone : listed k₀ (outpoints rest) ≡ false = elim (h.once.0) [
        | inl old ↦ absurd (true-false (sym old ∙ new))
        | inr absent ↦ absent
      ] in
      record {
        in_created =
            λ k old. get_cons_ne k k₀ v utxos (listed_ne k k₀ created new old) ∙ h.in_created k old;
        in_rest = λ k fresh later.
            get_cons_ne k k₀ v utxos (listed_ne k k₀ (outpoints rest) alone later)
            ∙ h.in_rest k fresh (ground (arith, later));
        done = λ k fresh out. elim (Bool-cases (outpoint_eq k k₀)) [
          | inl same ↦
              subst (λ j. get j ((k₀, v) ∷ utxos) ≡ target j) (sym ((outpoint_eq_iff k k₀).0 same))
                (get_cons_self k₀ v utxos ∙ sym row)
          | inr other ↦ get_cons_ne k k₀ v utxos other ∙ h.done k fresh (ground (arith, other, out))
        ];
        sources = h.sources.1;
        once = h.once.1;
      }

  source_row :
      (r : UtxoRecord)
      → (listed (outpoint_of_record r) created ≡ true)
        ⊎ ((target (outpoint_of_record r) ≡ some (row_of_record r)) × IsStored (row_of_record r))
      → listed (outpoint_of_record r) created ≡ false
      → (target (outpoint_of_record r) ≡ some (row_of_record r)) × IsStored (row_of_record r)
  source_row r (inl old) new = absurd (true-false (sym old ∙ new))
  source_row r (inr row) new = row

  restore_all_step :
      (r : UtxoRecord) (rest : List UtxoRecord) (utxos utxos' : Coins)
      → restore_spent r set utxos ≡ ok utxos'
      → restore_all (r ∷ rest) set utxos ≡ restore_all rest set utxos'
  unfolding restore_all
  restore_all_step r rest utxos utxos' e = ap (λ u. u >>= λ next. restore_all rest set next) e

  -- The loop over the spent outputs succeeds and reaches the target.
  restore_all_lem :
      (spent : List UtxoRecord) (utxos : Coins)
      → Restoring utxos spent
      → (utxos' : Coins) × (restore_all spent set utxos ≡ ok utxos')
        × ((k : Outpoint) → get k utxos' ≡ target k)
  unfolding restore_all listed
  restore_all_lem [] utxos h = (
    utxos,
    refl,
    (λ k. elim (Bool-cases (listed k created)) [
      | inl old ↦ h.in_created k old
      | inr new ↦ h.done k new refl
    ]),
  )
  restore_all_lem (r ∷ rest) utxos h = elim (Bool-cases (listed (outpoint_of_record r) created)) [
    | inl old ↦
        let (utxos', e, reached) = restore_all_lem rest utxos (Restoring-skip r utxos rest h old) in
        (
          utxos',
          restore_all_step r rest utxos utxos (restore_spent_step r utxos true old) ∙ e,
          reached,
        )
    | inr new ↦
        let (row, stored) = source_row r h.sources.0 new in
        let free = get-contains-none (outpoint_of_record r) utxos (
          h.in_rest (outpoint_of_record r) new
            (ground (arith, outpoint_eq_iff (outpoint_of_record r) (outpoint_of_record r)))) in
        let next = (outpoint_of_record r, row_of_record r) ∷ utxos in
        let (utxos', e, reached) =
          restore_all_lem rest next (Restoring-insert r utxos rest h new row) in
        (
          utxos',
          restore_all_step r rest utxos next
                (restore_spent_step r utxos false new ∙ restore_row_lem r utxos stored free)
              ∙ e,
          reached,
        )
  ]

module _ ⦃c : Crypto⦄ where
  All-sources :
      (before : Coins) (created : List Outpoint)
      → ((k : Outpoint) (row : UtxoRow) → get k before ≡ some row → IsStored row)
      → (spent : List UtxoRecord) → All (ComesFrom before created) spent
      → All
          (λ r.
            (listed (outpoint_of_record r) created ≡ true)
            ⊎ ((get (outpoint_of_record r) before ≡ some (row_of_record r))
                × IsStored (row_of_record r)))
          spent
  All-sources before created stored [] h = tt
  All-sources before created stored (r ∷ rest) h = (
    elim (h.0) [
      | inl old ↦ inl old
      | inr row ↦ inr (row, stored (outpoint_of_record r) (row_of_record r) row)
    ],
    All-sources before created stored rest h.1,
  )

  -- The two loops of disconnectTip succeed on a reversible block and give back the outputs before it.
  pub restore_lem :
      (before after : Coins) (spent : List UtxoRecord) (created : List Outpoint)
      → ((k : Outpoint) (row : UtxoRow) → get k before ≡ some row → IsStored row)
      → Reversible before after spent created
      → (removed : Map Outpoint (Unit {0}) × Coins) × (utxos : Coins) × (remove_created created []
            after
          ≡ ok removed)
        × (restore_all spent removed.0 removed.1 ≡ ok utxos)
        × ((k : Outpoint) → get k utxos ≡ get k before)
  unfolding contains
  restore_lem before after spent created stored h =
      let (removed, e, (set, absent, same)) =
        remove_created_lem created [] after h.created_once (λ k l. refl) h.unique in
      let (utxos, e', reached) =
        restore_all_lem (λ k. get k before) created removed.0 (λ k. set k) spent removed.1
          (record {
            in_created = λ k old. absent k old ∙ sym (h.created_new k old);
            in_rest = λ k new later. same k new ∙ h.gone k new later;
            done = λ k new out. same k new ∙ h.kept k new out;
            sources = All-sources before created stored spent h.rows;
            once = h.once;
          }) in
      (removed, utxos, e, e', reached)
