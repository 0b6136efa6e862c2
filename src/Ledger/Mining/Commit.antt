-- ===== src/Ledger/Mining/Commit.antt =====
-- CommitMinedBlockAtTime of internal/ledger/mining.go takes a block only on the tip that it was made for.
use entcoin.Base.{
  ℕ, ◌+◌, ◌≡◌, ◌⊎◌, inl, inr, refl, sym, ◌∙◌, ◌||◌, not, false, Bool-cases, arith, Bytes, Result,
  ok, err, Error, eqb, [], bytes_eq, bytes_eq_iff, >>=-eq-ok, fail_if-eq-ok,
}
use entcoin.Base.Int.{ℤ}
use entcoin.Core.Model.{Block}
use entcoin.Core.Encoding.{Crypto}
use entcoin.Ledger.Tables.{Tables, Tip, tip_from_query, block_work, commit}
use entcoin.Ledger.Mempool.Chain.{rebuild_mempool-SameChain, tip_from_query-SameChain}
use entcoin.Ledger.Connect.{connect_block_at_time}
use entcoin.Ledger.Connect.Tip.{connect_block_at_time-tip}
use entcoin.Ledger.Mining.{commit_in_tables, commit_mined_block_at_time}

-- The tip was the expected one, and `block` is the tip now.
abbrev pub Extended : Tables → Block → Tip → Tables → Type 0
Extended before block expected after =
    (old new : Tip) × (tip_from_query before ≡ ok old)
    × (old.height ≡ expected.height)
    × (old.hash ≡ expected.hash)
    × (tip_from_query after ≡ ok new)
    × (new.hash ≡ block.hash)
    × (new.work ≡ old.work + block_work block.difficulty)

same_tip :
    (height height' : ℕ) (hash hash' : Bytes)
    → (not (eqb height height') || not (bytes_eq hash hash')) ≡ false
    → (height ≡ height') × (hash ≡ hash')
same_tip height height' hash hash' h = elim (Bool-cases (bytes_eq hash hash')) [
  | inl same ↦ (ground arith, (bytes_eq_iff hash hash').0 same)
  | inr other ↦ absurd (ground arith)
]

module _ ⦃c : Crypto⦄ where
  commit_in_tables-Extended :
      (tables : Tables) (block : Block) (expected : Tip) (time now : ℤ) {after : Tables}
      → commit_in_tables tables block expected time now ≡ ok after
      → Extended tables block expected after
  unfolding commit_in_tables
  commit_in_tables-Extended tables block expected time now {after} e =
      let (old, found, e₁) = >>=-eq-ok (tip_from_query tables) _ e in
      let (current, e₂) =
        fail_if-eq-ok
          (not (eqb old.height expected.height) || not (bytes_eq old.hash expected.hash)) _ _ e₁ in
      let (connected, taken, e₃) = >>=-eq-ok (connect_block_at_time tables block time) _ e₂ in
      let same = same_tip old.height expected.height old.hash expected.hash current in
      let (new, reached, _, hash, work, _) =
        connect_block_at_time-tip tables block time old found taken in
      (
        old,
        new,
        found,
        same.0,
        same.1,
        sym (
              tip_from_query-SameChain connected after
                (rebuild_mempool-SameChain connected [] now e₃))
            ∙ reached,
        hash,
        work,
      )

  -- The block was taken on the expected tip, or an error and no change.
  abbrev pub CommitOutcome : Tables → Block → Tip → Result (Unit {0}) × Tables → Type 0
  CommitOutcome before block expected outcome =
      ((outcome.0 ≡ ok tt) × Extended before block expected outcome.1)
      ⊎ ((e : Error) × (outcome.0 ≡ err e) × (outcome.1 ≡ before))

  commit-CommitOutcome :
      (tables : Tables) (block : Block) (expected : Tip) (r : Result Tables)
      → ((after : Tables) → r ≡ ok after → Extended tables block expected after)
      → CommitOutcome tables block expected (commit tables r)
  commit-CommitOutcome tables block expected (ok after) k = inl (refl, k after refl)
  commit-CommitOutcome tables block expected (err e) k = inr (e, refl, refl)

  -- A commit that succeeds found the expected tip, by height and hash, and makes the block the tip with
  -- the work of the block added; a commit that fails leaves the tables as they were.
  pub commit_mined_block_at_time-CommitOutcome :
      (tables : Tables) (block : Block) (expected : Tip) (time now : ℤ)
      → CommitOutcome tables block expected
          (commit_mined_block_at_time tables block expected time now)
  unfolding commit_mined_block_at_time
  commit_mined_block_at_time-CommitOutcome tables block expected time now =
      commit-CommitOutcome tables block expected (commit_in_tables tables block expected time now)
        (λ after e. commit_in_tables-Extended tables block expected time now e)
