-- ===== src/Ledger/Mempool/Chain.antt =====
-- Rebuilding the mempool of internal/ledger/mempool.go leaves the chain's tables alone.
use entcoin.Base.{
  ℕ, ◌+◌, ◌≡◌, refl, ap, ◌∙◌, List, ok, leb, >>=-eq-ok, fail_if-eq-ok, ok_injective, constraint,
}
use entcoin.Base.Int.{ℤ}
use entcoin.Core.Model.{Transaction}
use entcoin.Core.Encoding.{Crypto}
use entcoin.Ledger.Tables.{Tables, max_int64, tip_from_query, last_tip, exists_row}
use entcoin.Ledger.Mempool.{
  ResourceUsage, PendingTransaction, read_mempool_resource_usage, insert_mempool_inputs,
  insert_mempool_outputs, insert_pending, check_admission, add_mempool_transaction_with_usage,
  repopulate_from, repopulate_mempool, rebuild_mempool, clear_mempool, rebuilt_list,
}
use entcoin.Ledger.Mempool.Steps.{repopulate_from_inv}

-- Equal but for the pending transactions.
abbrev pub SameChain : Tables → Tables → Type 0
SameChain tables tables' = clear_mempool tables ≡ clear_mempool tables'

pub tip_from_query-SameChain :
    (tables tables' : Tables)
    → SameChain tables tables'
    → tip_from_query tables ≡ tip_from_query tables'
unfolding tip_from_query
tip_from_query-SameChain tables tables' e = ap (λ t. last_tip t.blocks) e

insert_pending-SameChain :
    (tables : Tables) (tx : Transaction) (first_seen : ℤ) (fee : ℕ) (usage : ResourceUsage)
    {result : Tables × ResourceUsage}
    → insert_pending tables tx first_seen fee usage ≡ ok result
    → SameChain tables result.0
unfolding insert_pending
insert_pending-SameChain tables tx first_seen fee usage e =
    let (_, e₁) = fail_if-eq-ok (exists_row _ tables.mempool) constraint _ e in
    let (_, _, e₂) = >>=-eq-ok (insert_mempool_inputs tx.id tx.inputs tables.mempool_inputs) _ e₁ in
    let (_, _, e₃) =
      >>=-eq-ok (insert_mempool_outputs tx.id 0 tx.outputs tables.mempool_outputs) _ e₂ in
    ap (λ r. clear_mempool r.0) (ok_injective e₃)

module _ ⦃c : Crypto⦄ where
  add_mempool_transaction_with_usage-SameChain :
      (tables : Tables) (tx : Transaction) (first_seen : ℤ) (height : ℕ) (usage : ResourceUsage)
      {result : Tables × ResourceUsage}
      → add_mempool_transaction_with_usage tables tx first_seen height usage ≡ ok result
      → SameChain tables result.0
  unfolding add_mempool_transaction_with_usage
  add_mempool_transaction_with_usage-SameChain tables tx first_seen height usage e =
      let (fee, _, e₁) = >>=-eq-ok (check_admission tables tx height usage) _ e in
      insert_pending-SameChain tables tx first_seen fee usage e₁

  repopulate_from-SameChain :
      (tables : Tables) (usage : ResourceUsage) (pending : List PendingTransaction) (height : ℕ)
      {tables' : Tables}
      → repopulate_from tables usage pending height ≡ ok tables'
      → SameChain tables tables'
  repopulate_from-SameChain tables usage pending height e =
      let (_, kept) =
        repopulate_from_inv (λ t u. SameChain tables t)
          (λ t u item n result p added.
            p
            ∙ add_mempool_transaction_with_usage-SameChain t item.transaction item.first_seen n u
                added)
          tables usage pending height refl e in
      kept

  pub rebuild_mempool-SameChain :
      (tables : Tables) (extra : List Transaction) (now : ℤ) {tables' : Tables}
      → rebuild_mempool tables extra now ≡ ok tables'
      → SameChain tables tables'
  unfolding rebuild_mempool repopulate_mempool
  rebuild_mempool-SameChain tables extra now e =
      let (tip, _, e₁) = >>=-eq-ok (tip_from_query tables) _ e in
      let (_, e₂) = fail_if-eq-ok (leb max_int64 tip.height) _ _ e₁ in
      repopulate_from-SameChain (clear_mempool tables)
        (read_mempool_resource_usage (clear_mempool tables)) (rebuilt_list extra now tables.mempool)
        (tip.height + 1) e₂
