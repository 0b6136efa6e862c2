-- ===== src/Ledger/Mempool/Steps.antt =====
-- The loop of repopulateMempool in internal/ledger/mempool.go, one transaction at a time.
use entcoin.Base.{
  ℕ, ◌≡◌, refl, sym, ap, ◌∙◌, subst, Bool, true, false, List, [], ◌∷◌, Result, ok, err, Error,
  Result-cases, inl, inr, ok_injective, err≢ok, Bool-cases,
}
use entcoin.Core.Encoding.{Crypto}
use entcoin.Ledger.Tables.{Tables}
use entcoin.Ledger.Mempool.{
  ResourceUsage, PendingTransaction, add_mempool_transaction_with_usage, repopulate_from,
  is_mempool_rejection,
}

module _ ⦃c : Crypto⦄ where
  -- what `repopulate_from` does with the result of one transaction
  abbrev pub resume :
      Tables
      → ResourceUsage
      → List PendingTransaction
      → ℕ
      → Result (Tables × ResourceUsage)
      → Result Tables
  resume tables usage rest height result = elim result [
    | ok (tables', usage') ↦ repopulate_from tables' usage' rest height
    | err e ↦ elim (is_mempool_rejection e) [
      | true ↦ repopulate_from tables usage rest height
      | false ↦ err e
    ]
  ]

  pub repopulate_from_step :
      (tables : Tables) (usage : ResourceUsage) (item : PendingTransaction)
      (rest : List PendingTransaction) (height : ℕ)
      → repopulate_from tables usage (item ∷ rest) height
        ≡ resume tables usage rest height (
            add_mempool_transaction_with_usage tables item.transaction item.first_seen height usage)
  unfolding repopulate_from
  repopulate_from_step tables usage item rest height = refl

  abbrev pub resume_rejected :
      Tables → ResourceUsage → List PendingTransaction → ℕ → Error → Bool → Result Tables
  resume_rejected tables usage rest height e passed = elim passed [
    | true ↦ repopulate_from tables usage rest height
    | false ↦ err e
  ]

  pub repopulate_from_nil :
      (tables : Tables) (usage : ResourceUsage) (height : ℕ)
      → repopulate_from tables usage [] height ≡ ok tables
  unfolding repopulate_from
  repopulate_from_nil tables usage height = refl

  -- What each admission keeps, the loop keeps.
  pub repopulate_from_inv :
      (P : Tables → ResourceUsage → Type 0)
      (keep : (tables : Tables) (usage : ResourceUsage) (item : PendingTransaction) (height : ℕ)
          (result : Tables × ResourceUsage)
        → P tables usage
        → add_mempool_transaction_with_usage tables item.transaction item.first_seen height usage
          ≡ ok result
        → P result.0 result.1)
      (tables : Tables) (usage : ResourceUsage) (pending : List PendingTransaction) (height : ℕ)
      {tables' : Tables}
      → P tables usage
      → repopulate_from tables usage pending height ≡ ok tables'
      → (usage' : ResourceUsage) × P tables' usage'
  repopulate_from_inv P keep tables usage [] height h e = (
    usage,
    subst (λ t. P t usage) (ok_injective (sym (repopulate_from_nil tables usage height) ∙ e)) h,
  )
  repopulate_from_inv P keep tables usage (item ∷ rest) height h e =
      let step = sym (repopulate_from_step tables usage item rest height) ∙ e in
      elim (Result-cases
        (add_mempool_transaction_with_usage tables item.transaction item.first_seen height usage)) [
          | inl (result, added) ↦
              repopulate_from_inv P keep result.0 result.1 rest height
                (keep tables usage item height result h added)
                (sym (ap (resume tables usage rest height) added) ∙ step)
          | inr (failure, refused) ↦
              let failed = sym (ap (resume tables usage rest height) refused) ∙ step in
              elim (Bool-cases (is_mempool_rejection failure)) [
                | inl passed ↦
                    repopulate_from_inv P keep tables usage rest height h
                      (sym (ap (resume_rejected tables usage rest height failure) passed) ∙ failed)
                | inr final ↦ absurd (
                    err≢ok
                      (sym (ap (resume_rejected tables usage rest height failure) final) ∙ failed))
              ]
        ]
