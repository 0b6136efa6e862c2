-- ===== src/Core/Header/Body.antt =====
-- What the block checks of internal/core/chain.go establish beyond the header's fields.
use entcoin.Base.{
  ◌≡◌, refl, sym, ◌∙◌, Bool, true, ◌||◌, not, List, length, ltb, eqb, bytes_eq, bytes_eq_iff,
  Result, ok, fail_if, ◌>>◌, fail_if-eq-ok, fail_if_ok, >>-eq-ok, arith, ◌≤◌, block_hash, work,
  transaction_count, merkle_root_mismatch, ℕ, ◌+◌, ◌⊎◌, inl, inr, false, [], ◌∷◌, All, subst,
  oversized_transaction, block_size,
}
use entcoin.Base.Int.{ℤ}
use entcoin.Core.Model.{
  max_block_transactions, max_transaction_bytes, max_block_bytes, Transaction, Block,
}
use entcoin.Core.Encoding.{Crypto}
use entcoin.Core.Merkle.{merkle_root}
use entcoin.Core.Transaction.{encoded_size}
use entcoin.Core.Work.{compute_hash, has_valid_work}
use entcoin.Core.Work.Target.{Meets, has_valid_work-Meets}
use entcoin.Core.Header.{
  check_sizes, validate_header_consensus_fields, validate_header_at_time,
  validate_block_header_at_time,
}
use entcoin.Core.Header.Laws.{FieldsHold, validate_header_consensus_fields-FieldsHold}

-- the bytes of a block's transactions
abbrev pub all_bytes : List Transaction → ℕ
all_bytes [] = 0
all_bytes (t ∷ rest) = encoded_size t + all_bytes rest

not-of_false : (b : Bool) → not b ≡ false → b ≡ true
not-of_false b h = ground (arith, h)

not_ltb : (a b : ℕ) → ltb a b ≡ false → b ≤ a
not_ltb a b h = ground (arith, h)

sized_head :
    (t : Transaction) (rest : List Transaction) (size : ℕ)
    → size + encoded_size t ≤ max_block_bytes
    → (rest ≡ []) ⊎ (size + encoded_size t + all_bytes rest ≤ max_block_bytes)
    → size + all_bytes (t ∷ rest) ≤ max_block_bytes
sized_head t rest size h (inl none) =
    subst (λ l. size + all_bytes (t ∷ l) ≤ max_block_bytes) (sym none) (omega (arith, h))
sized_head t rest size h (inr more) = omega (arith, more)

-- The running size stays within the limit to the end.
check_sizes_lem :
    (size : ℕ) (txs : List Transaction)
    → check_sizes size txs ≡ ok tt
    → All (λ t. encoded_size t ≤ max_transaction_bytes) txs
      × ((txs ≡ []) ⊎ (size + all_bytes txs ≤ max_block_bytes))
unfolding check_sizes
check_sizes_lem size [] e = (tt, inl refl)
check_sizes_lem size (t ∷ rest) e =
    let (one, e₁) =
      fail_if-eq-ok (ltb max_transaction_bytes (encoded_size t)) oversized_transaction _ e in
    let (whole, e₂) = fail_if-eq-ok (ltb max_block_bytes (size + encoded_size t)) block_size _ e₁ in
    let (each, more) = check_sizes_lem (size + encoded_size t) rest e₂ in
    (
      (not_ltb max_transaction_bytes (encoded_size t) one, each),
      inr (sized_head t rest size (not_ltb max_block_bytes (size + encoded_size t) whole) more),
    )

start_fits :
    (txs : List Transaction)
    → (txs ≡ []) ⊎ (256 + all_bytes txs ≤ max_block_bytes)
    → 256 + all_bytes txs ≤ max_block_bytes
start_fits txs (inl none) =
    subst (λ l. 256 + all_bytes l ≤ max_block_bytes) (sym none) (omega arith)
start_fits txs (inr h) = h

module _ ⦃c : Crypto⦄ where
  -- All that an accepted block satisfies before its transactions are applied.
  pub record BlockHolds (block previous : Block) (prior_blocks : List Block) (now : ℤ)
      : Type 0 where
    pub fields : FieldsHold block previous prior_blocks now
    pub hash_ok : block.hash ≡ compute_hash block
    pub work_ok : Meets block.hash block.difficulty
    pub some_transaction : 1 ≤ length block.transactions
    pub transactions_fit : length block.transactions ≤ max_block_transactions
    pub each_fits : All (λ t. encoded_size t ≤ max_transaction_bytes) block.transactions
    pub bytes_fit : 256 + all_bytes block.transactions ≤ max_block_bytes
    pub merkle_ok : block.merkle_root ≡ merkle_root block.transactions

  module _ (block previous : Block) (prior_blocks : List Block) (now : ℤ) where
    abbrev count_bad : Bool
    count_bad =
        eqb (length block.transactions) 0 || ltb max_block_transactions (length block.transactions)

    abbrev bad_root : Bool
    bad_root = not (bytes_eq block.merkle_root (merkle_root block.transactions))

    abbrev body_checks : Result (Unit {0})
    body_checks =
        fail_if count_bad transaction_count
        >> (check_sizes 256 block.transactions >> fail_if bad_root merkle_root_mismatch)

    abbrev hash_checks : Result (Unit {0})
    hash_checks =
        fail_if (not (bytes_eq block.hash (compute_hash block))) block_hash
        >> fail_if (not (has_valid_work block)) work

    validate_block_header_step :
        validate_block_header_at_time block previous prior_blocks now
        ≡ (validate_header_at_time block previous prior_blocks now >> body_checks)
    unfolding validate_block_header_at_time
    validate_block_header_step = refl

    validate_header_step :
        validate_header_at_time block previous prior_blocks now
        ≡ (validate_header_consensus_fields block previous prior_blocks now >> hash_checks)
    unfolding validate_header_at_time
    validate_header_step = refl

    -- An accepted block has a header that fits the rules; its own hash, which as a number is below
    -- 2 ^ 256 shifted down by the difficulty; at least one and at most the allowed transactions, each
    -- within its limit on bytes and all with the 256 bytes of the header within that of the block; and
    -- their Merkle root.
    pub validate_block_header-BlockHolds :
        validate_block_header_at_time block previous prior_blocks now ≡ ok tt
        → BlockHolds block previous prior_blocks now
    validate_block_header-BlockHolds h =
        let (header, h₁) =
          >>-eq-ok (validate_header_at_time block previous prior_blocks now) body_checks
            (sym validate_block_header_step ∙ h) in
        let (fields, h₂) =
          >>-eq-ok (validate_header_consensus_fields block previous prior_blocks now) hash_checks
            (sym validate_header_step ∙ header) in
        let (hashed, h₃) =
          fail_if-eq-ok (not (bytes_eq block.hash (compute_hash block))) block_hash _ h₂ in
        let worked = fail_if_ok (not (has_valid_work block)) work h₃ in
        let (counted, h₄) = fail_if-eq-ok count_bad transaction_count _ h₁ in
        let (sized, h₅) =
          >>-eq-ok (check_sizes 256 block.transactions) (fail_if bad_root merkle_root_mismatch)
            h₄ in
        let rooted = fail_if_ok bad_root merkle_root_mismatch h₅ in
        record {
          fields =
              validate_header_consensus_fields-FieldsHold block previous prior_blocks now fields;
          hash_ok = ground (arith, bytes_eq_iff block.hash (compute_hash block));
          work_ok = has_valid_work-Meets block (not-of_false (has_valid_work block) worked);
          some_transaction = ground arith;
          transactions_fit = ground arith;
          each_fits = (check_sizes_lem 256 block.transactions sized).0;
          bytes_fit =
              start_fits block.transactions (check_sizes_lem 256 block.transactions sized).1;
          merkle_ok =
              ground (arith, bytes_eq_iff block.merkle_root (merkle_root block.transactions));
        }
