-- ===== src/Ledger/Selection/Fits.antt =====
-- The transactions that internal/ledger/mining.go selects stay within the limits.
use entcoin.Base.{
  ℕ, ◌+◌, ◌-◌, ◌<◌, ◌≤◌, ◌≡◌, ◌⊎◌, inl, inr, refl, sym, ap, ◌∙◌, subst, Bool, true, false, List, [],
  ◌∷◌, length, arith, Result, ok, err, >>=-eq-ok, ok_injective, Bool-cases, ltb,
}
use entcoin.Core.Model.{Transaction, max_block_bytes, max_block_transactions}
use entcoin.Core.Encoding.{Crypto}
use entcoin.Core.Transaction.{encoded_size}
use entcoin.Ledger.Tables.{Tables}
use entcoin.Ledger.Apply.{checked_add}
use entcoin.Ledger.Collector.{total_size}
use entcoin.Ledger.Selection.{
  MiningView, Selection, too_large, is_full, selected_more, take_or_skip, consider, selection_fee,
  view_apply, select_transactions,
}

-- What was selected fits after what is in `selection`.
pub record Fits (selection : Selection) (chosen : List Transaction) : Type 0 where
  pub few : (chosen ≡ []) ⊎ (selection.count + length chosen ≤ max_block_transactions - 1)
  pub small : (chosen ≡ []) ⊎ (selection.size + total_size chosen ≤ max_block_bytes)

nothing-Fits : (selection : Selection) → Fits selection []
nothing-Fits selection = record { few = inl refl; small = inl refl }

cons_bound :
    (count size n m : ℕ) (chosen : List Transaction) (t : Transaction)
    → count < n
    → size + encoded_size t ≤ m
    → (chosen ≡ []) ⊎ (count + 1 + length chosen ≤ n)
    → (chosen ≡ []) ⊎ (size + encoded_size t + total_size chosen ≤ m)
    → (count + length (t ∷ chosen) ≤ n) × (size + total_size (t ∷ chosen) ≤ m)
unfolding total_size
cons_bound count size n m [] t c s few small = omega arith
cons_bound count size n m (u ∷ chosen) t c s few small = ground (arith, few, small)

fits_of :
    (size more : ℕ) → ltb max_block_bytes (size + more) ≡ false → size + more ≤ max_block_bytes
fits_of size more h = ground (arith, h)

module _ ⦃c : Crypto⦄ where
  selected_more_lem :
      (selection : Selection) (t : Transaction) (view : MiningView) (fees : ℕ)
      → ((selected_more selection t view fees).count ≡ selection.count + 1)
        × ((selected_more selection t view fees).size ≡ selection.size + encoded_size t)
  unfolding selected_more
  selected_more_lem selection t view fees = (refl, refl)

  cons-Fits :
      (selection : Selection) (t : Transaction) (view : MiningView) (fees : ℕ)
      (chosen : List Transaction)
      → is_full selection ≡ false
      → too_large selection t ≡ false
      → Fits (selected_more selection t view fees) chosen
      → Fits selection (t ∷ chosen)
  unfolding too_large selected_more
  cons-Fits selection t view fees chosen room small h =
      let bound =
        cons_bound selection.count selection.size (max_block_transactions - 1) max_block_bytes
          chosen t (ground (arith, room)) (fits_of selection.size (encoded_size t) small) h.few
          h.small in
      record { few = inr bound.0; small = inr bound.1 }

  view-Fits :
      (selection : Selection) (view : MiningView) (chosen : List Transaction)
      → Fits (record selection { view = view }) chosen
      → Fits selection chosen
  view-Fits selection view chosen h = record { few = h.few; small = h.small }

  -- A step of the loop keeps the limits if the rest does.
  take_or_skip-Fits :
      (selection : Selection) (t : Transaction) (fee : ℕ) (applied : MiningView × Bool)
      (next : Selection → Result (List Transaction × ℕ)) {result : List Transaction × ℕ}
      → is_full selection ≡ false
      → too_large selection t ≡ false
      → ((s : Selection) (r : List Transaction × ℕ) → next s ≡ ok r → Fits s r.0)
      → take_or_skip selection t fee applied next ≡ ok result
      → Fits selection result.0
  unfolding take_or_skip
  take_or_skip-Fits selection t fee (view, false) next {result} room small rest e =
      view-Fits selection view result.0 (rest (record selection { view = view }) result e)
  take_or_skip-Fits selection t fee (view, true) next room small rest e =
      let (fees, _, e₁) = >>=-eq-ok (checked_add selection.fees fee) _ e in
      let (more, chosen, e₂) = >>=-eq-ok (next (selected_more selection t view fees)) _ e₁ in
      subst (λ r. Fits selection r.0) (ok_injective e₂)
        (cons-Fits selection t view fees more.0 room small
          (rest (selected_more selection t view fees) more chosen))

  consider-Fits :
      (selection : Selection) (t : Transaction) (fee : Result ℕ)
      (next : Selection → Result (List Transaction × ℕ)) {result : List Transaction × ℕ}
      → is_full selection ≡ false
      → too_large selection t ≡ false
      → ((s : Selection) (r : List Transaction × ℕ) → next s ≡ ok r → Fits s r.0)
      → consider selection t fee next ≡ ok result
      → Fits selection result.0
  unfolding consider
  consider-Fits selection t (err f) next {result} room small rest e = rest selection result e
  consider-Fits selection t (ok fee) next room small rest e =
      take_or_skip-Fits selection t fee (view_apply t selection.view) next room small rest e

  abbrev by_size :
      Tables → Selection → Transaction → List Transaction → Bool → Result (List Transaction × ℕ)
  unfolding consider
  by_size tables selection t rest large = elim large [
    | true ↦ select_transactions tables selection rest
    | false ↦
        consider selection t (selection_fee tables selection.view t)
          (λ next. select_transactions tables next rest)
  ]

  abbrev by_count :
      Tables → Selection → Transaction → List Transaction → Bool → Result (List Transaction × ℕ)
  unfolding by_size too_large
  by_count tables selection t rest full = elim full [
    | true ↦ ok ([], selection.fees)
    | false ↦ by_size tables selection t rest (too_large selection t)
  ]

  select_transactions_step :
      (tables : Tables) (selection : Selection) (t : Transaction) (rest : List Transaction)
      → select_transactions tables selection (t ∷ rest)
        ≡ by_count tables selection t rest (is_full selection)
  unfolding select_transactions by_count
  select_transactions_step tables selection t rest = refl

  pub select_transactions-Fits :
      (tables : Tables) (pending : List Transaction) (selection : Selection)
      (result : List Transaction × ℕ)
      → select_transactions tables selection pending ≡ ok result
      → Fits selection result.0
  unfolding select_transactions by_count by_size
  select_transactions-Fits tables [] selection result e =
      subst (λ r. Fits selection r.0) (ok_injective e) (nothing-Fits selection)
  select_transactions-Fits tables (t ∷ rest) selection result e =
      let step = sym (select_transactions_step tables selection t rest) ∙ e in
      elim (Bool-cases (is_full selection)) [
        | inl full ↦
            subst (λ r. Fits selection r.0)
              (ok_injective (sym (ap (by_count tables selection t rest) full) ∙ step))
              (nothing-Fits selection)
        | inr room ↦
            let sized = sym (ap (by_count tables selection t rest) room) ∙ step in
            elim (Bool-cases (too_large selection t)) [
              | inl large ↦
                  select_transactions-Fits tables rest selection result
                    (sym (ap (by_size tables selection t rest) large) ∙ sized)
              | inr small ↦
                  consider-Fits selection t (selection_fee tables selection.view t)
                    (λ next. select_transactions tables next rest) room small
                    (λ s r chosen. select_transactions-Fits tables rest s r chosen)
                    (sym (ap (by_size tables selection t rest) small) ∙ sized)
            ]
      ]
