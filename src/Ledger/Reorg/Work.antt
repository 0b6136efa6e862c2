-- ===== src/Ledger/Reorg/Work.antt =====
-- A replacement of internal/ledger/reorg.go stands only with more work than the chain it replaces.
use entcoin.Base.{
  ℕ, ◌-◌, ◌<◌, ◌≡◌, ◌⊎◌, inl, inr, refl, sym, ◌∙◌, ◌||◌, Bool, true, false, arith, Result, ok, err,
  Error, ltb, leb, eqb, >>=-eq-ok, fail_if-eq-ok, if◌then◌else◌, insufficient_work,
}
use entcoin.Base.Int.{ℤ}
use entcoin.Core.Model.{Block, max_pending_transactions}
use entcoin.Core.Encoding.{Crypto}
use entcoin.Ledger.Tables.{Tables, Tip, max_int64, tip_from_query, commit}
use entcoin.Ledger.Mempool.Chain.{tip_from_query-SameChain, rebuild_mempool-SameChain}
use entcoin.Ledger.Collector.{new_collector, orphaned_transactions}
use entcoin.Ledger.Reorg.{
  max_orphaned_mempool_bytes, disconnect_blocks, connect_blocks, replace_in_tables,
  replace_from_source_at_time,
}

-- The tips before and after, the work having grown.
abbrev pub MoreWork : Tables → Tables → Type 0
MoreWork before after =
    (old new : Tip) × (tip_from_query before ≡ ok old)
    × (tip_from_query after ≡ ok new)
    × (old.work < new.work)

lt-of_leb : (a b : ℕ) → leb a b ≡ false → b < a
lt-of_leb a b h = ground arith

module _ ⦃c : Crypto⦄ where
  replace_in_tables-MoreWork :
      (tables : Tables) (ancestor count : ℕ) (block_at : ℕ → Result Block) (time now : ℤ)
      {tables' : Tables}
      → replace_in_tables tables ancestor count block_at time now ≡ ok tables'
      → MoreWork tables tables'
  unfolding replace_in_tables
  replace_in_tables-MoreWork tables ancestor count block_at time now {tables'} e =
      let (old, found, e₁) = >>=-eq-ok (tip_from_query tables) _ e in
      let (_, e₂) = fail_if-eq-ok (ltb old.height ancestor || ltb max_int64 ancestor) _ _ e₁ in
      let (_, e₃) = fail_if-eq-ok (ltb ancestor tables.pruned_through) _ _ e₂ in
      let (disconnected, _, e₄) =
        >>=-eq-ok
          (disconnect_blocks (old.height - ancestor) tables
            (new_collector max_pending_transactions max_orphaned_mempool_bytes))
          _ e₃ in
      let (connected, _, e₅) =
        >>=-eq-ok (connect_blocks count 0 block_at time disconnected.0) _ e₄ in
      let (new, reached, e₆) = >>=-eq-ok (tip_from_query connected) _ e₅ in
      let (more, e₇) = fail_if-eq-ok (leb new.work old.work) _ _ e₆ in
      let same =
        rebuild_mempool-SameChain connected (orphaned_transactions disconnected.1) now e₇ in
      (
        old,
        new,
        found,
        sym (tip_from_query-SameChain connected tables' same) ∙ reached,
        lt-of_leb new.work old.work more,
      )

  -- More work, or an error and no change.
  abbrev pub WorkOutcome : Tables → Result (Unit {0}) × Tables → Type 0
  WorkOutcome before outcome =
      ((outcome.0 ≡ ok tt) × MoreWork before outcome.1)
      ⊎ ((e : Error) × (outcome.0 ≡ err e) × (outcome.1 ≡ before))

  commit-WorkOutcome :
      (tables : Tables) (r : Result Tables)
      → ((tables' : Tables) → r ≡ ok tables' → MoreWork tables tables')
      → WorkOutcome tables (commit tables r)
  commit-WorkOutcome tables (ok after) k = inl (refl, k after refl)
  commit-WorkOutcome tables (err e) k = inr (e, refl, refl)

  guarded-WorkOutcome :
      (tables : Tables) (none : Bool) (r : Result Tables)
      → ((tables' : Tables) → r ≡ ok tables' → MoreWork tables tables')
      → WorkOutcome tables (if none then (err insufficient_work, tables) else commit tables r)
  guarded-WorkOutcome tables true r k = inr (insufficient_work, refl, refl)
  guarded-WorkOutcome tables false r k = commit-WorkOutcome tables r k

  -- A replacement that succeeds leaves a chain with strictly more cumulative work, and one that fails
  -- leaves the tables as they were, whatever the ancestor, the blocks and the callback.
  pub replace_from_source_at_time-WorkOutcome :
      (tables : Tables) (ancestor count : ℕ) (block_at : ℕ → Result Block) (time now : ℤ)
      → WorkOutcome tables (replace_from_source_at_time tables ancestor count block_at time now)
  unfolding replace_from_source_at_time
  replace_from_source_at_time-WorkOutcome tables ancestor count block_at time now =
      guarded-WorkOutcome tables (eqb count 0)
        (replace_in_tables tables ancestor count block_at time now)
        (λ tables' e. replace_in_tables-MoreWork tables ancestor count block_at time now e)
