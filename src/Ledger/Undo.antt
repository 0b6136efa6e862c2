-- ===== src/Ledger/Undo.antt =====
-- What makes the undo record of internal/ledger/apply.go undo a block: how the unspent outputs before
-- and after it differ, kept step by step while the block is connected.
pub mod Steps
pub mod Created
pub mod Restore
pub mod Loop
pub mod Outputs
pub mod Block
pub mod RoundTrip
use entcoin.Base.{
  ◌≡◌, ◌⊎◌, inl, inr, refl, sym, ap, ◌∙◌, subst, Bool, true, false, ◌||◌, Option, none, some, List,
  [], ◌∷◌, ◌++◌, map, All, All-append, arith, Bool-cases, if◌then◌else◌,
}
use entcoin.Base.Map.{
  Map, get, contains, remove, IsUnique, remove-IsUnique, get-remove_self, get-remove_ne,
  get-contains-none, contains-get,
}
use entcoin.Core.Model.{Outpoint, outpoint_eq, outpoint_eq_iff, outpoint_Eq}
use entcoin.Ledger.Tables.{UtxoRow, UtxoRecord, outpoint_of_record}
use entcoin.Ledger.Disconnect.{row_of_record}

abbrev pub Coins : Type 0
Coins = Map Outpoint UtxoRow

unfoldable pub listed : Outpoint → List Outpoint → Bool
listed k [] = false
listed k (j ∷ l) = outpoint_eq k j || listed k l

abbrev pub outpoints : List UtxoRecord → List Outpoint
outpoints spent = map outpoint_of_record spent

-- No outpoint is created twice.
abbrev pub IsDistinct : List Outpoint → Type 0
unfolding listed
IsDistinct [] = Unit {0}
IsDistinct (j ∷ l) = (listed j l ≡ false) × IsDistinct l

-- An output that the block did not create is spent once.
abbrev pub SpentOnce : List Outpoint → List UtxoRecord → Type 0
SpentOnce created [] = Unit {0}
SpentOnce created (r ∷ rest) =
    ((listed (outpoint_of_record r) created ≡ true)
      ⊎ (listed (outpoint_of_record r) (outpoints rest) ≡ false))
    × SpentOnce created rest

-- Created by the block, or an output of `before` as it stood there.
abbrev pub ComesFrom : Coins → List Outpoint → UtxoRecord → Type 0
ComesFrom before created r =
    (listed (outpoint_of_record r) created ≡ true)
    ⊎ (get (outpoint_of_record r) before ≡ some (row_of_record r))

-- `after` is `before` with `spent` taken out and `created` put in.
pub record Reversible (before after : Coins) (spent : List UtxoRecord) (created : List Outpoint)
    : Type 0 where
  pub unique : IsUnique after
  pub created_new : (k : Outpoint) → listed k created ≡ true → get k before ≡ none
  pub created_once : IsDistinct created
  pub kept :
      (k : Outpoint)
      → listed k created ≡ false
      → listed k (outpoints spent) ≡ false
      → get k after ≡ get k before
  pub gone :
      (k : Outpoint)
      → listed k created ≡ false
      → listed k (outpoints spent) ≡ true
      → get k after ≡ none
  pub rows : All (ComesFrom before created) spent
  pub once : SpentOnce created spent

pub listed_snoc :
    (k j : Outpoint) (l : List Outpoint) → listed k (l ++ j ∷ []) ≡ (listed k l || outpoint_eq k j)
unfolding listed
listed_snoc k j [] = ground arith
listed_snoc k j (i ∷ l) = ground (arith, listed_snoc k j l)

outpoints_snoc :
    (spent : List UtxoRecord) (r : UtxoRecord)
    → outpoints (spent ++ r ∷ []) ≡ outpoints spent ++ outpoint_of_record r ∷ []
outpoints_snoc [] r = refl
outpoints_snoc (s ∷ spent) r = ap (λ l. outpoint_of_record s ∷ l) (outpoints_snoc spent r)

pub listed_spent_snoc :
    (k : Outpoint) (spent : List UtxoRecord) (r : UtxoRecord)
    → listed k (outpoints (spent ++ r ∷ []))
      ≡ (listed k (outpoints spent) || outpoint_eq k (outpoint_of_record r))
listed_spent_snoc k spent r =
    ap (listed k) (outpoints_snoc spent r) ∙ listed_snoc k (outpoint_of_record r) (outpoints spent)

pub true-false : true ≡ false → ⊥
true-false e = cc e

pub or_false : (a b : Bool) → (a || b) ≡ false → (a ≡ false) × (b ≡ false)
or_false a b h = ground (arith, h)

pub outpoint_eq_sym : (a b : Outpoint) → outpoint_eq a b ≡ outpoint_eq b a
outpoint_eq_sym a b = ground (arith, outpoint_eq_iff a b, outpoint_eq_iff b a)

-- The head of a table is found, and hides nothing else.
pub get_cons_self : (k : Outpoint) (v : UtxoRow) (m : Coins) → get k ((k, v) ∷ m) ≡ some v
unfolding get
get_cons_self k v m = ground (arith, outpoint_eq_iff k k)

pub get_cons_ne :
    (k j : Outpoint) (v : UtxoRow) (m : Coins)
    → outpoint_eq k j ≡ false
    → get k ((j, v) ∷ m) ≡ get k m
unfolding get
get_cons_ne k j v m h = rw h refl

pub IsDistinct-snoc :
    (l : List Outpoint) (k : Outpoint)
    → IsDistinct l
    → listed k l ≡ false
    → IsDistinct (l ++ k ∷ [])
unfolding listed IsDistinct
IsDistinct-snoc [] k h new = (refl, tt)
IsDistinct-snoc (j ∷ l) k h new =
    let (other, rest) = or_false (outpoint_eq k j) (listed k l) new in
    (
      listed_snoc j k l ∙ ground (arith, h.0, other, outpoint_eq_sym j k),
      IsDistinct-snoc l k h.1 rest,
    )

pub listed_cons :
    (k j : Outpoint) (l : List Outpoint) → listed k (j ∷ l) ≡ (outpoint_eq k j || listed k l)
unfolding listed
listed_cons k j l = refl

-- `a` is created, or it is not among `l`.
abbrev pub CreatedOr : List Outpoint → Outpoint → List Outpoint → Type 0
CreatedOr created a l = (listed a created ≡ true) ⊎ (listed a l ≡ false)

CreatedOr-snoc :
    (created : List Outpoint) (a b : Outpoint) (l : List Outpoint)
    → CreatedOr created b (a ∷ l)
    → CreatedOr created a l
    → CreatedOr created a (l ++ b ∷ [])
CreatedOr-snoc created a b l f (inl old) = inl old
CreatedOr-snoc created a b l f (inr new) = elim (Bool-cases (outpoint_eq a b)) [
  | inr other ↦ inr (listed_snoc a b l ∙ ground (arith, new, other))
  | inl same ↦ elim f [
    | inl old ↦ inl (ap (λ k. listed k created) ((outpoint_eq_iff a b).0 same) ∙ old)
    | inr absent ↦ absurd (
        true-false (
          sym (ap (λ t. t || listed b l) (sym (outpoint_eq_sym a b) ∙ same))
          ∙ sym (listed_cons b a l)
          ∙ absent))
  ]
]

CreatedOr-tail :
    (created : List Outpoint) (b a : Outpoint) (l : List Outpoint)
    → CreatedOr created b (a ∷ l)
    → CreatedOr created b l
CreatedOr-tail created b a l (inl old) = inl old
CreatedOr-tail created b a l (inr new) =
    inr (or_false (outpoint_eq b a) (listed b l) (sym (listed_cons b a l) ∙ new)).1

pub SpentOnce-snoc :
    (created : List Outpoint) (spent : List UtxoRecord) (r : UtxoRecord)
    → CreatedOr created (outpoint_of_record r) (outpoints spent)
    → SpentOnce created spent
    → SpentOnce created (spent ++ r ∷ [])
SpentOnce-snoc created [] r f h = (f, tt)
SpentOnce-snoc created (s ∷ rest) r f h = (
  subst (CreatedOr created (outpoint_of_record s)) (sym (outpoints_snoc rest r))
      (CreatedOr-snoc created (outpoint_of_record s) (outpoint_of_record r) (outpoints rest) f h.0),
  SpentOnce-snoc created rest r (CreatedOr-tail created _ _ _ f) h.1,
)

-- Creating more keeps what was so.
pub listed_mono :
    (k j : Outpoint) (l : List Outpoint) → listed k l ≡ true → listed k (l ++ j ∷ []) ≡ true
listed_mono k j l h = listed_snoc k j l ∙ ground (arith, h)

pub SpentOnce-mono :
    (created : List Outpoint) (j : Outpoint) (spent : List UtxoRecord)
    → SpentOnce created spent
    → SpentOnce (created ++ j ∷ []) spent
SpentOnce-mono created j [] h = tt
SpentOnce-mono created j (s ∷ rest) h = (
  elim (h.0) [
    | inl old ↦ inl (listed_mono (outpoint_of_record s) j created old)
    | inr new ↦ inr new
  ],
  SpentOnce-mono created j rest h.1,
)

pub rows_mono :
    (before : Coins) (created : List Outpoint) (j : Outpoint) (spent : List UtxoRecord)
    → All (ComesFrom before created) spent
    → All (ComesFrom before (created ++ j ∷ [])) spent
rows_mono before created j [] h = tt
rows_mono before created j (s ∷ rest) h = (
  elim (h.0) [
    | inl old ↦ inl (listed_mono (outpoint_of_record s) j created old)
    | inr row ↦ inr row
  ],
  rows_mono before created j rest h.1,
)
