-- ===== src/Ledger/Undo/Created.antt =====
-- The first loop of disconnectTip in internal/ledger/reorg.go removes what the block created.
use entcoin.Base.{
  ◌≡◌, inl, inr, refl, sym, ap, ◌∙◌, true, false, ◌||◌, none, List, [], ◌∷◌, arith, Bool-cases, ok,
}
use entcoin.Base.Map.{
  Map, get, contains, put, remove, IsUnique, remove-IsUnique, get-remove_self, get-remove_ne,
}
use entcoin.Core.Model.{Outpoint, outpoint_eq, outpoint_eq_iff, outpoint_Eq}
use entcoin.Ledger.Disconnect.{remove_created}
use entcoin.Ledger.Undo.{Coins, listed, IsDistinct, or_false, true-false, outpoint_eq_sym}

-- The set `created` and the table are those after the outpoints of `l` have gone.
abbrev pub Removed :
    List Outpoint → Map Outpoint (Unit {0}) → Coins → Map Outpoint (Unit {0}) × Coins → Type 0
Removed l created utxos (created', utxos') =
    ((k : Outpoint) → contains k created' ≡ (contains k created || listed k l))
    × ((k : Outpoint) → listed k l ≡ true → get k utxos' ≡ none)
    × ((k : Outpoint) → listed k l ≡ false → get k utxos' ≡ get k utxos)

contains-put :
    (k j : Outpoint) (m : Map Outpoint (Unit {0}))
    → contains k (put j tt m) ≡ (contains k m || outpoint_eq k j)
unfolding contains put
contains-put k j [] = ground arith
contains-put k j ((i, v) ∷ m) =
    ground
      (arith, contains-put k j m, outpoint_eq_iff j i, outpoint_eq_iff k i, outpoint_eq_iff k j)

remove_created_step :
    (j : Outpoint) (l : List Outpoint) (created : Map Outpoint (Unit {0})) (utxos : Coins)
    → contains j created ≡ false
    → remove_created (j ∷ l) created utxos ≡ remove_created l (put j tt created) (remove j utxos)
unfolding remove_created
remove_created_step j l created utxos new = rw new refl

-- Two outpoints of which one is in the list and the other is not.
pub listed_ne :
    (k j : Outpoint) (l : List Outpoint)
    → listed j l ≡ false
    → listed k l ≡ true
    → outpoint_eq k j ≡ false
listed_ne k j l out inside = elim (Bool-cases (outpoint_eq k j)) [
  | inr other ↦ other
  | inl same ↦
      absurd (true-false (sym inside ∙ ap (λ i. listed i l) ((outpoint_eq_iff k j).0 same) ∙ out))
]

Removed-step :
    (j : Outpoint) (l : List Outpoint) (created : Map Outpoint (Unit {0})) (utxos : Coins)
    (result : Map Outpoint (Unit {0}) × Coins)
    → listed j l ≡ false
    → IsUnique utxos
    → Removed l (put j tt created) (remove j utxos) result
    → Removed (j ∷ l) created utxos result
unfolding listed
Removed-step j l created utxos result once unique (set, absent, same) = (
  (λ k. set k ∙ ground (arith, contains-put k j created)),
  (λ k h. elim (Bool-cases (listed k l)) [
    | inl later ↦ absent k later
    | inr first ↦
        let e = (outpoint_eq_iff k j).0 (ground (arith, h, first)) in
        same k first ∙ ap (λ i. get i (remove j utxos)) e ∙ get-remove_self j utxos unique
  ]),
  (λ k h.
      let (other, out) = or_false (outpoint_eq k j) (listed k l) h in
      same k out ∙ get-remove_ne j k utxos (outpoint_eq_sym j k ∙ other)),
)

pub remove_created_lem :
    (l : List Outpoint) (created : Map Outpoint (Unit {0})) (utxos : Coins)
    → IsDistinct l
    → ((k : Outpoint) → listed k l ≡ true → contains k created ≡ false)
    → IsUnique utxos
    → (result : Map Outpoint (Unit {0}) × Coins) × (remove_created l created utxos ≡ ok result)
      × Removed l created utxos result
unfolding remove_created listed IsDistinct
remove_created_lem [] created utxos distinct new unique =
    ((created, utxos), refl, ((λ k. ground arith), (λ k h. cc), (λ k h. refl)))
remove_created_lem (j ∷ l) created utxos distinct new unique =
    let (result, e, removed) =
      remove_created_lem l (put j tt created) (remove j utxos) distinct.1
        (λ k h.
          contains-put k j created
          ∙ ground (arith, new k (ground (arith, h)), listed_ne k j l distinct.0 h))
        (remove-IsUnique j utxos unique) in
    (
      result,
      remove_created_step j l created utxos (new j (ground (arith, outpoint_eq_iff j j))) ∙ e,
      Removed-step j l created utxos result distinct.0 unique removed,
    )
