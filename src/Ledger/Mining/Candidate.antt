-- ===== src/Ledger/Mining/Candidate.antt =====
-- The block that internal/ledger/mining.go offers extends the tip and keeps the limits.
use entcoin.Base.{
  ℕ, ◌+◌, ◌-◌, ◌≤◌, ◌≡◌, ◌⊎◌, inl, inr, refl, sym, subst, List, [], ◌∷◌, length, arith, Bytes,
  Result, ok, >>=-eq-ok, >>-eq-ok, fail_if-eq-ok, ok_injective, true, ap, leb,
}
use entcoin.Base.Int.{ℤ}
use entcoin.Core.Model.{Transaction, Block, max_block_bytes, max_block_transactions}
use entcoin.Core.Amount.{subsidy}
use entcoin.Core.Encoding.{Crypto}
use entcoin.Core.Address.{validate_address}
use entcoin.Core.Transaction.{encoded_size, new_coinbase}
use entcoin.Core.Transaction.Size.{encoded_size-new_coinbase, encoded_size-reserve}
use entcoin.Core.Time.{next_timestamp_at}
use entcoin.Core.Difficulty.{expected_difficulty_at}
use entcoin.Core.Merkle.{merkle_root}
use entcoin.Core.Work.{compute_hash}
use entcoin.Ledger.Tables.{Tables, Tip, max_int64, tip_from_query}
use entcoin.Ledger.Apply.{checked_add, header_window_from_query}
use entcoin.Ledger.Collector.{total_size}
use entcoin.Ledger.Selection.{start_selection, select_transactions}
use entcoin.Ledger.Mining.{
  mempool_transactions_from_query, build_mining_candidate_at_time, candidate_block, complete_block,
  choose_transactions,
}
use entcoin.Ledger.Selection.Fits.{select_transactions-Fits}

module _ ⦃c : Crypto⦄ where
  -- The transactions of an offered block: the bytes are those that the validation of a block counts.
  pub record Chosen (transactions : List Transaction) : Type 0 where
    pub coinbase : Transaction
    pub selected : List Transaction
    pub is_coinbase : coinbase.coinbase ≡ true
    pub shape : transactions ≡ coinbase ∷ selected
    pub few : length transactions ≤ max_block_transactions
    pub small : 256 + total_size transactions ≤ max_block_bytes

  -- What the miner is offered on `tip`.
  pub record Candidate (tables : Tables) (block : Block) (tip : Tip) : Type 0 where
    pub is_tip : tip_from_query tables ≡ ok tip
    pub height : block.height ≡ tip.height + 1
    pub previous : block.previous_hash ≡ tip.hash
    pub chosen : Chosen block.transactions
    pub root : block.merkle_root ≡ merkle_root block.transactions
    pub hashed : block.hash ≡ compute_hash block

  count_bound :
      (chosen : List Transaction) (n : ℕ)
      → (chosen ≡ []) ⊎ (0 + length chosen ≤ n)
      → length chosen ≤ n
  count_bound chosen n (inl e) = subst (λ l. length l ≤ n) (sym e) (omega arith)
  count_bound chosen n (inr h) = omega (arith, h)

  size_bound :
      (coinbase reserve : Transaction) (chosen : List Transaction)
      → encoded_size coinbase ≤ 119
      → encoded_size reserve ≡ 119
      → (chosen ≡ []) ⊎ (256 + encoded_size reserve + total_size chosen ≤ max_block_bytes)
      → 256 + total_size (coinbase ∷ chosen) ≤ max_block_bytes
  unfolding total_size
  size_bound coinbase reserve chosen small same (inl none) =
      subst (λ l. 256 + total_size (coinbase ∷ l) ≤ max_block_bytes) (sym none)
        (omega (arith, small))
  size_bound coinbase reserve chosen small same (inr fits) = omega (arith, small, same, fits)

  new_coinbase_lem :
      (address : Bytes) (height amount : ℕ) (random : Result ℕ) {t : Transaction}
      → new_coinbase address height amount random ≡ ok t
      → t.coinbase ≡ true
  unfolding new_coinbase
  new_coinbase_lem address height amount random e =
      let (_, e₁) = >>-eq-ok (validate_address address) _ e in
      let (nonce, _, e₂) = >>=-eq-ok random _ e₁ in sym (ap (λ t. t.coinbase) (ok_injective e₂))

  choose_transactions-Chosen :
      (tables : Tables) (address : Bytes) (height : ℕ) (pending : List Transaction)
      (reserve_random random : Result ℕ) {transactions : List Transaction}
      → choose_transactions tables address height pending reserve_random random ≡ ok transactions
      → Chosen transactions
  unfolding choose_transactions
  choose_transactions-Chosen tables address height pending reserve_random random e =
      let (reserve, reserved, e₁) = >>=-eq-ok (new_coinbase address height 1 reserve_random) _ e in
      let start = start_selection height (256 + encoded_size reserve) in
      let (selected, chosen, e₂) = >>=-eq-ok (select_transactions tables start pending) _ e₁ in
      let (reward, _, e₃) = >>=-eq-ok (checked_add (subsidy height) selected.1) _ e₂ in
      let (coinbase, made, e₄) = >>=-eq-ok (new_coinbase address height reward random) _ e₃ in
      let fits = select_transactions-Fits tables pending start selected chosen in
      subst Chosen (ok_injective e₄) (record {
        coinbase = coinbase;
        selected = selected.0;
        is_coinbase = new_coinbase_lem address height reward random made;
        shape = refl;
        few = omega (arith, count_bound selected.0 (max_block_transactions - 1) fits.few);
        small =
            size_bound coinbase reserve selected.0
              (encoded_size-new_coinbase address height reward random made)
              (encoded_size-reserve address height reserve_random reserved) fits.small;
      })

  complete_block-Candidate :
      (tables : Tables) (tip : Tip) (headers : List Block) (now : ℤ)
      (transactions : List Transaction) {block : Block}
      → tip_from_query tables ≡ ok tip
      → Chosen transactions
      → complete_block tip headers now transactions ≡ ok block
      → Candidate tables block tip
  unfolding complete_block candidate_block compute_hash
  complete_block-Candidate tables tip headers now transactions found chosen e =
      let (timestamp, _, e₁) = >>=-eq-ok (next_timestamp_at headers now) _ e in
      let (difficulty, _, e₂) =
        >>=-eq-ok (expected_difficulty_at headers (tip.height + 1) timestamp) _ e₁ in
      subst (λ offered. Candidate tables offered tip) (ok_injective e₂)
        (record {
          is_tip = found;
          height = refl;
          previous = refl;
          chosen = chosen;
          root = refl;
          hashed = refl;
        })

  -- The block offered to the miner is the next one on the tip that comes with it: its height, its link,
  -- its Merkle root and its hash are right, a coinbase stands first, and all its transactions, the
  -- coinbase with them, are within the limits on the number and on the bytes of a block.
  pub build_mining_candidate_at_time-Candidate :
      (tables : Tables) (address : Bytes) (now : ℤ) (reserve_random random : Result ℕ)
      {block : Block} {tip : Tip}
      → build_mining_candidate_at_time tables address now reserve_random random ≡ ok (block, tip)
      → Candidate tables block tip
  unfolding build_mining_candidate_at_time
  build_mining_candidate_at_time-Candidate tables address now reserve_random random e =
      let (_, e₁) = >>-eq-ok (validate_address address) _ e in
      let (tip, found, e₂) = >>=-eq-ok (tip_from_query tables) _ e₁ in
      let (headers, _, e₃) = >>=-eq-ok (header_window_from_query tables tip.height) _ e₂ in
      let (pending, _, e₄) = >>=-eq-ok (mempool_transactions_from_query tables) _ e₃ in
      let (_, e₅) = fail_if-eq-ok (leb max_int64 tip.height) _ _ e₄ in
      let (transactions, chosen, e₆) =
        >>=-eq-ok
          (choose_transactions tables address (tip.height + 1) pending reserve_random random) _
          e₅ in
      let (block, completed, e₇) = >>=-eq-ok (complete_block tip headers now transactions) _ e₆ in
      subst (λ offered. Candidate tables offered.0 offered.1) (ok_injective e₇)
        (complete_block-Candidate tables tip headers now transactions found
          (choose_transactions-Chosen tables address (tip.height + 1) pending reserve_random random
            chosen)
          completed)
