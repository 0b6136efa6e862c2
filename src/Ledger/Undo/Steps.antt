-- ===== src/Ledger/Undo/Steps.antt =====
-- Spending an output and creating one keep the block reversible.
use entcoin.Base.{
  ◌≡◌, inl, inr, refl, sym, ap, ◌∙◌, subst, true, false, Option, none, some, List, [], ◌∷◌, ◌++◌,
  All, All-append, arith, Bool-cases,
}
use entcoin.Base.Map.{
  get, contains, remove, IsUnique, IsUnique-cons, remove-IsUnique, get-remove_self, get-remove_ne,
}
use entcoin.Core.Model.{Outpoint, outpoint_eq, outpoint_eq_iff, outpoint_Eq}
use entcoin.Ledger.Tables.{UtxoRow, UtxoRecord, outpoint_of_record}
use entcoin.Ledger.Disconnect.{row_of_record}
use entcoin.Ledger.Undo.{
  Coins, listed, outpoints, ComesFrom, Reversible, listed_snoc, listed_spent_snoc, or_false,
  true-false, outpoint_eq_sym, get_cons_ne, IsDistinct-snoc, CreatedOr, SpentOnce-snoc,
  SpentOnce-mono, rows_mono,
}

some-none : {a : UtxoRow} → ◌≡◌ {A = Option UtxoRow} (some a) none → ⊥
some-none e = cc e

spent_gone :
    (before after : Coins) (spent : List UtxoRecord) (created : List Outpoint) (r : UtxoRecord)
    → Reversible before after spent created
    → (k : Outpoint) → listed k created ≡ false
    → listed k (outpoints (spent ++ r ∷ [])) ≡ true
    → get k (remove (outpoint_of_record r) after) ≡ none
spent_gone before after spent created r h k new out =
    let k₀ = outpoint_of_record r in
    elim (Bool-cases (outpoint_eq k₀ k)) [
      | inl same ↦
          subst (λ j. get j (remove k₀ after) ≡ none) ((outpoint_eq_iff k₀ k).0 same)
            (get-remove_self k₀ after h.unique)
      | inr other ↦
          let earlier : listed k (outpoints spent) ≡ true =
            ground (arith, listed_spent_snoc k spent r, out, outpoint_eq_sym k₀ k, other) in
          get-remove_ne k₀ k after other ∙ h.gone k new earlier
    ]

spent_row :
    (before after : Coins) (spent : List UtxoRecord) (created : List Outpoint) (r : UtxoRecord)
    → Reversible before after spent created
    → get (outpoint_of_record r) after ≡ some (row_of_record r)
    → ComesFrom before created r
spent_row before after spent created r h found =
    let k₀ = outpoint_of_record r in
    elim (Bool-cases (listed k₀ created)) [
      | inl old ↦ inl old
      | inr new ↦ elim (Bool-cases (listed k₀ (outpoints spent))) [
        | inl twice ↦ absurd (some-none (sym found ∙ h.gone k₀ new twice))
        | inr first ↦ inr (sym (h.kept k₀ new first) ∙ found)
      ]
    ]

-- One input is spent.
pub spend-Reversible :
    (before after : Coins) (spent : List UtxoRecord) (created : List Outpoint) (r : UtxoRecord)
    → Reversible before after spent created
    → get (outpoint_of_record r) after ≡ some (row_of_record r)
    → Reversible before (remove (outpoint_of_record r) after) (spent ++ r ∷ []) created
spend-Reversible before after spent created r h found =
    let k₀ = outpoint_of_record r in
    let not_gone : CreatedOr created k₀ (outpoints spent) = elim (Bool-cases (listed k₀ created)) [
      | inl old ↦ inl old
      | inr new ↦ elim (Bool-cases (listed k₀ (outpoints spent))) [
        | inl twice ↦ absurd (some-none (sym found ∙ h.gone k₀ new twice))
        | inr first ↦ inr first
      ]
    ] in
    record {
      unique = remove-IsUnique k₀ after h.unique;
      created_new = h.created_new;
      created_once = h.created_once;
      kept = λ k new out.
          let (first, other) =
            or_false (listed k (outpoints spent)) (outpoint_eq k k₀)
              (sym (listed_spent_snoc k spent r) ∙ out) in
          get-remove_ne k₀ k after (outpoint_eq_sym k₀ k ∙ other) ∙ h.kept k new first;
      gone = λ k new out. spent_gone before after spent created r h k new out;
      rows =
          All-append (ComesFrom before created) spent (r ∷ []) h.rows
            (spent_row before after spent created r h found, tt);
      once = SpentOnce-snoc created spent r not_gone h.once;
    }

-- An output is created under an outpoint that is new to the block and to `before`.
fresh_spent :
    (before : Coins) (created : List Outpoint) (k : Outpoint) (spent : List UtxoRecord)
    → All (ComesFrom before created) spent
    → listed k created ≡ false
    → get k before ≡ none
    → listed k (outpoints spent) ≡ false
unfolding listed
fresh_spent before created k [] h new absent = refl
fresh_spent before created k (r ∷ rest) h new absent =
    elim (Bool-cases (outpoint_eq k (outpoint_of_record r))) [
      | inr other ↦ rw other (fresh_spent before created k rest h.1 new absent)
      | inl same ↦
          let e = (outpoint_eq_iff k (outpoint_of_record r)).0 same in
          absurd (elim (h.0) [
            | inl old ↦ true-false (sym old ∙ sym (ap (λ j. listed j created) e) ∙ new)
            | inr row ↦ some-none (sym row ∙ sym (ap (λ j. get j before) e) ∙ absent)
          ])
    ]

pub create-Reversible :
    (before after : Coins) (spent : List UtxoRecord) (created : List Outpoint) (k : Outpoint)
    (v : UtxoRow)
    → Reversible before after spent created
    → listed k created ≡ false
    → get k before ≡ none
    → contains k after ≡ false
    → Reversible before ((k, v) ∷ after) spent (created ++ k ∷ [])
create-Reversible before after spent created k v h new absent free = record {
  unique = IsUnique-cons k v after free h.unique;
  created_new = λ j old. elim (Bool-cases (listed j created)) [
    | inl earlier ↦ h.created_new j earlier
    | inr later ↦
        ap (λ i. get i before)
          ((outpoint_eq_iff j k).0 (ground (arith, listed_snoc j k created, old, later)))
        ∙ absent
  ];
  created_once = IsDistinct-snoc created k h.created_once new;
  kept = λ j out unspent.
      let (earlier, other) =
        or_false (listed j created) (outpoint_eq j k) (sym (listed_snoc j k created) ∙ out) in
      get_cons_ne j k v after other ∙ h.kept j earlier unspent;
  gone = λ j out used.
      let (earlier, other) =
        or_false (listed j created) (outpoint_eq j k) (sym (listed_snoc j k created) ∙ out) in
      get_cons_ne j k v after other ∙ h.gone j earlier used;
  rows = rows_mono before created k spent h.rows;
  once = SpentOnce-mono created k spent h.once;
}

-- Before the block nothing differs.
pub start-Reversible : (before : Coins) → IsUnique before → Reversible before before [] []
unfolding listed
start-Reversible before unique = record {
  unique = unique;
  created_new = λ k old. cc;
  created_once = tt;
  kept = λ k new out. refl;
  gone = λ k new out. cc;
  rows = tt;
  once = tt;
}
