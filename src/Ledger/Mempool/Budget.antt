-- ===== src/Ledger/Mempool/Budget.antt =====
-- The pending transactions of internal/ledger/mempool.go stay within the limits on their number, their
-- bytes and their inputs.
use entcoin.Base.{
  ℕ, ◌+◌, ◌≡◌, refl, sym, ap, ◌∙◌, List, length, arith, Result, ok, err, fail_if, ◌>>=◌, ◌>>◌, leb,
  >>=-eq-ok, fail_if-eq-ok, >>-eq-ok, Result-cases, inl, inr, subst, ok_injective, err≢ok,
  chain_exhausted,
}
use entcoin.Base.Int.{ℤ}
use entcoin.Core.Model.{Transaction, outpoint_Eq}
use entcoin.Core.Encoding.{Crypto}
use entcoin.Core.Transaction.{encoded_size}
use entcoin.Ledger.Tables.{Tables, max_int64, commit, tip_from_query}
use entcoin.Ledger.Mempool.{
  ResourceUsage, PendingTransaction, sum_sizes, read_mempool_resource_usage,
  validate_mempool_resource_budget, check_admission, add_mempool_transaction_with_usage,
  add_mempool_transaction, add_transaction, repopulate_from, repopulate_mempool, rebuild_mempool,
  clear_mempool, reject, is_known, tables_of, rebuilt_list,
}
use entcoin.Ledger.Mempool.Steps.{repopulate_from_inv}
use entcoin.Ledger.Mempool.Usage.{InBudget, Accounted, budget_ok, insert_pending-Grown}

reject_ok : (r : Result (Unit {0})) → reject r ≡ ok tt → r ≡ ok tt
reject_ok (ok u) e = refl
reject_ok (err f) e = cc

module _ ⦃c : Crypto⦄ where
  check_admission-budget :
      (tables : Tables) (tx : Transaction) (height : ℕ) (usage : ResourceUsage) {fee : ℕ}
      → check_admission tables tx height usage ≡ ok fee
      → validate_mempool_resource_budget usage (encoded_size tx) (length tx.inputs) ≡ ok tt
  unfolding check_admission
  check_admission-budget tables tx height usage e =
      let (_, e₁) = fail_if-eq-ok tx.coinbase _ _ e in
      let (_, e₂) = fail_if-eq-ok (is_known tables tx.id) _ _ e₁ in
      let (passed, _) =
        >>-eq-ok
          (reject (validate_mempool_resource_budget usage (encoded_size tx) (length tx.inputs))) _
          e₂ in
      reject_ok _ passed

  -- An admitted transaction leaves the tables' usage accounted for and within the limits.
  pub add_mempool_transaction_with_usage-Accounted :
      (tables : Tables) (tx : Transaction) (first_seen : ℤ) (height : ℕ) (usage : ResourceUsage)
      {result : Tables × ResourceUsage}
      → Accounted tables usage
      → add_mempool_transaction_with_usage tables tx first_seen height usage ≡ ok result
      → Accounted result.0 result.1
  unfolding add_mempool_transaction_with_usage
  add_mempool_transaction_with_usage-Accounted tables tx first_seen height usage h e =
      let (fee, checked, e₁) = >>=-eq-ok (check_admission tables tx height usage) _ e in
      let budget =
        budget_ok usage (encoded_size tx) (length tx.inputs)
          (check_admission-budget tables tx height usage checked) in
      let (same, count, bytes, items) =
        insert_pending-Grown tables tx first_seen fee usage h.0 e₁ in
      (
        same,
        record {
          count_bound = omega (arith, budget, count);
          bytes_bound = omega (arith, budget, bytes);
          inputs_bound = omega (arith, budget, items);
        },
      )

  -- The tables hold no more than the limits.
  abbrev pub Bounded : Tables → Type 0
  Bounded tables = InBudget (read_mempool_resource_usage tables)

  Accounted-Bounded :
      (tables : Tables) (usage : ResourceUsage) → Accounted tables usage → Bounded tables
  Accounted-Bounded tables usage h = subst InBudget h.0 h.1

  repopulate_from-Bounded :
      (tables : Tables) (usage : ResourceUsage) (pending : List PendingTransaction) (height : ℕ)
      {tables' : Tables}
      → Accounted tables usage
      → repopulate_from tables usage pending height ≡ ok tables'
      → Bounded tables'
  repopulate_from-Bounded tables usage pending height {tables'} h e =
      let (usage', kept) =
        repopulate_from_inv Accounted
          (λ t u item n result p added.
            add_mempool_transaction_with_usage-Accounted t item.transaction item.first_seen n u p
              added)
          tables usage pending height h e in
      Accounted-Bounded tables' usage' kept

  pub empty-Bounded : (tables : Tables) → Bounded (clear_mempool tables)
  unfolding read_mempool_resource_usage sum_sizes
  empty-Bounded tables = record {
    count_bound = omega arith;
    bytes_bound = omega arith;
    inputs_bound = omega arith;
  }

  -- A rebuilt mempool is within the limits, whatever the tables and the returned transactions held.
  pub rebuild_mempool-Bounded :
      (tables : Tables) (extra : List Transaction) (now : ℤ) {tables' : Tables}
      → rebuild_mempool tables extra now ≡ ok tables'
      → Bounded tables'
  unfolding rebuild_mempool repopulate_mempool
  rebuild_mempool-Bounded tables extra now e =
      let (tip, _, e₁) = >>=-eq-ok (tip_from_query tables) _ e in
      let (_, e₂) = fail_if-eq-ok (leb max_int64 tip.height) _ _ e₁ in
      repopulate_from-Bounded (clear_mempool tables)
        (read_mempool_resource_usage (clear_mempool tables)) (rebuilt_list extra now tables.mempool)
        (tip.height + 1) (refl, empty-Bounded tables) e₂

  add_mempool_transaction-Bounded :
      (tables : Tables) (tx : Transaction) (now : ℤ) (height : ℕ) {tables' : Tables}
      → Bounded tables
      → add_mempool_transaction tables tx now height ≡ ok tables'
      → Bounded tables'
  unfolding add_mempool_transaction
  add_mempool_transaction-Bounded tables tx now height h e =
      elim (Result-cases (
        add_mempool_transaction_with_usage tables tx now height
          (read_mempool_resource_usage tables))) [
            | inl (result, added) ↦
                let after =
                  add_mempool_transaction_with_usage-Accounted tables tx now height
                    (read_mempool_resource_usage tables) (refl, h) added in
                subst Bounded (ok_injective (sym (ap tables_of added) ∙ e))
                  (Accounted-Bounded result.0 result.1 after)
            | inr (failure, refused) ↦ absurd (err≢ok (sym (ap tables_of refused) ∙ e))
          ]

  abbrev admitted : Tables → Transaction → ℤ → Result Tables
  admitted tables tx now = do
    tip ← tip_from_query tables
    fail_if (leb max_int64 tip.height) chain_exhausted
    add_mempool_transaction tables tx now (tip.height + 1)

  add_transaction_step :
      (tables : Tables) (tx : Transaction) (now : ℤ)
      → add_transaction tables tx now ≡ commit tables (admitted tables tx now)
  unfolding add_transaction
  add_transaction_step tables tx now = refl

  admitted-Bounded :
      (tables : Tables) (tx : Transaction) (now : ℤ) {tables' : Tables}
      → Bounded tables
      → admitted tables tx now ≡ ok tables'
      → Bounded tables'
  admitted-Bounded tables tx now h e =
      let (tip, _, e₁) = >>=-eq-ok (tip_from_query tables) _ e in
      let (_, e₂) = fail_if-eq-ok (leb max_int64 tip.height) _ _ e₁ in
      add_mempool_transaction-Bounded tables tx now (tip.height + 1) h e₂

  commit-Bounded :
      (tables : Tables) (r : Result Tables)
      → Bounded tables
      → ((tables' : Tables) → r ≡ ok tables' → Bounded tables')
      → Bounded (commit tables r).1
  commit-Bounded tables (ok after) h k = k after refl
  commit-Bounded tables (err e) h k = h

  -- AddTransaction keeps the tables within the limits, whether it admits the transaction or fails.
  pub add_transaction-Bounded :
      (tables : Tables) (tx : Transaction) (now : ℤ)
      → Bounded tables
      → Bounded (add_transaction tables tx now).1
  add_transaction-Bounded tables tx now h =
      subst (λ r. Bounded r.1) (sym (add_transaction_step tables tx now))
        (commit-Bounded tables (admitted tables tx now) h
          (λ tables' e. admitted-Bounded tables tx now h e))
