-- ===== src/Base/Map.antt =====
-- A Go map as an association list. `put` overwrites the entry of its key, so a map that was built
-- by `put` and `remove` lists no key twice.
use mathlib.Core.Path.{◌≡◌, refl, sym, ap, ◌∙◌}
use mathlib.Core.Bool.{Bool, true, false}
use mathlib.Core.Option.{Option, none, some}
use mathlib.Core.List.{List, [], ◌∷◌}
use native.Mathlib.Omega.{arith}
use mathlib.Core.Logic.{◌⊎◌, inl, inr}
use entcoin.Base.Tests.{if◌then◌else◌, Bool-cases}
use entcoin.Base.Equality.{Eq, ◌==◌}

abbrev pub Map {ℓ κ} : Type ℓ → Type κ → Type (ℓ ⊔ κ)
Map K V = List (K × V)

some_value {ℓ} : {A : Type ℓ} (w v : A) → some w ≡ some v → w ≡ v
some_value w v e = cc e

module _ {ℓ κ} {K : Type ℓ} {V : Type κ} ⦃e : Eq K⦄ where
  -- `v, exists := m[k]`
  unfoldable pub get : K → Map K V → Option V
  get k [] = none
  get k ((j, v) ∷ m) = if k == j then some v else get k m

  unfoldable pub contains : K → Map K V → Bool
  contains k [] = false
  contains k ((j, v) ∷ m) = if k == j then true else contains k m

  -- `delete(m, k)`
  unfoldable pub remove : K → Map K V → Map K V
  remove k [] = []
  remove k ((j, v) ∷ m) = if k == j then m else (j, v) ∷ remove k m

  -- `m[k] = v`
  unfoldable pub put : K → V → Map K V → Map K V
  put k v [] = (k, v) ∷ []
  put k v ((j, w) ∷ m) = if k == j then (k, v) ∷ m else (j, w) ∷ put k v m

  pub get-remove_ne : (k j : K) (m : Map K V) → (k == j) ≡ false → get j (remove k m) ≡ get j m
  unfolding get remove
  get-remove_ne k j [] h = refl
  get-remove_ne k j ((i, v) ∷ m) h =
      ground (arith, get-remove_ne k j m h, e.test_iff k j, e.test_iff k i, e.test_iff j i)

  pub get-put :
      (k j : K) (v : V) (m : Map K V) → get j (put k v m) ≡ (if k == j then some v else get j m)
  unfolding get put
  get-put k j v [] = ground (arith, e.test_iff k j, e.test_iff j k)
  get-put k j v ((i, w) ∷ m) =
      ground
        (arith, get-put k j v m, e.test_iff k j, e.test_iff j k, e.test_iff k i, e.test_iff j i)

  pub contains-get : (k : K) (m : Map K V) → contains k m ≡ false → get k m ≡ none
  unfolding contains get
  contains-get k [] h = refl
  contains-get k ((j, v) ∷ m) h = ground (arith, contains-get k m)

  pub contains-put_self : (k : K) (v : V) (m : Map K V) → contains k (put k v m) ≡ true
  unfolding contains put
  contains-put_self k v [] = ground (arith, e.test_iff k k)
  contains-put_self k v ((i, w) ∷ m) =
      ground (arith, contains-put_self k v m, e.test_iff k i, e.test_iff k k)

  pub contains-put_mono :
      (k j : K) (v : V) (m : Map K V) → contains j m ≡ true → contains j (put k v m) ≡ true
  unfolding contains put
  contains-put_mono k j v [] h = cc
  contains-put_mono k j v ((i, w) ∷ m) h =
      ground (arith, contains-put_mono k j v m, e.test_iff k i, e.test_iff j i, e.test_iff j k)

  -- No key twice: each key is absent from the entries after its own.
  unfoldable pub IsUnique : Map K V → Type 0
  unfolding contains
  IsUnique [] = Unit {0}
  IsUnique ((j, v) ∷ m) = (contains j m ≡ false) × IsUnique m

  pub get-contains-none : (k : K) (m : Map K V) → get k m ≡ none → contains k m ≡ false
  unfolding contains get
  get-contains-none k [] h = refl
  get-contains-none k ((j, v) ∷ m) h = ground (arith, get-contains-none k m)

  pub contains-get-true : (k : K) (m : Map K V) → contains k m ≡ true → (v : V) × (get k m ≡ some v)
  unfolding contains get
  contains-get-true k [] h = cc
  contains-get-true k ((j, v) ∷ m) h = elim (Bool-cases (k == j)) [
    | inl same ↦ (v, rw same refl)
    | inr other ↦ let (w, e) = contains-get-true k m (ground (arith, h, other)) in (w, rw other e)
  ]

  pub contains-remove :
      (k j : K) (m : Map K V) → contains j m ≡ false → contains j (remove k m) ≡ false
  unfolding contains remove
  contains-remove k j [] h = refl
  contains-remove k j ((i, v) ∷ m) h = ground (arith, contains-remove k j m)

  pub remove-IsUnique : (k : K) (m : Map K V) → IsUnique m → IsUnique (remove k m)
  unfolding remove IsUnique
  remove-IsUnique k [] h = tt
  remove-IsUnique k ((j, v) ∷ m) h = elim (Bool-cases (k == j)) [
    | inl same ↦ rw same h.1
    | inr other ↦ rw other (contains-remove k j m h.0, remove-IsUnique k m h.1)
  ]

  pub get-remove_self : (k : K) (m : Map K V) → IsUnique m → get k (remove k m) ≡ none
  unfolding get remove IsUnique
  get-remove_self k [] h = refl
  get-remove_self k ((j, v) ∷ m) h =
      ground (arith, get-remove_self k m h.1, contains-get j m h.0, e.test_iff k j)

  pub IsUnique-cons :
      (k : K) (v : V) (m : Map K V) → contains k m ≡ false → IsUnique m → IsUnique ((k, v) ∷ m)
  unfolding IsUnique
  IsUnique-cons k v m free h = (free, h)

  pub get-put_self : (k : K) (v : V) (m : Map K V) → get k (put k v m) ≡ some v
  get-put_self k v m = get-put k k v m ∙ ground (arith, e.test_iff k k)

  pub get-put_ne : (k j : K) (v : V) (m : Map K V) → (k == j) ≡ false → get j (put k v m) ≡ get j m
  get-put_ne k j v m h = get-put k j v m ∙ rw h refl

  -- What is found after a `put` is the new value, or stands under another key.
  pub put-found :
      (k j : K) (v w : V) (m : Map K V)
      → get j (put k v m) ≡ some w
      → ((k ≡ j) × (w ≡ v)) ⊎ (((k == j) ≡ false) × (get j m ≡ some w))
  put-found k j v w m h = elim (Bool-cases (k == j)) [
    | inl same ↦
        let key = (e.test_iff k j).0 same in
        inl
          (key, some_value w v (sym h ∙ sym (ap (λ i. get i (put k v m)) key) ∙ get-put_self k v m))
    | inr other ↦ inr (other, sym (get-put_ne k j v m other) ∙ h)
  ]
