-- ===== src/Core/Header.antt =====
-- internal/core/chain.go and block.go: the genesis block and the validation of headers and blocks
-- against their predecessors. `now` is the clock's reading.
pub mod Laws
pub mod Body
use entcoin.Base.{
  ℕ, suc, ◌+◌, ◌-◌, ◌%◌, ◌^◌, Bool, true, false, ◌&&◌, ◌||◌, not, List, [], ◌∷◌, Bytes, length,
  replicate, ltb, leb, eqb, bytes_eq, Result, ok, err, fail_if, is_ok, ◌>>=◌, ◌>>◌, block_version,
  prior_window, block_height, previous_hash, median_time, previous_time, future_time, difficulty,
  merkle_root_format, block_hash, work, transaction_count, oversized_transaction, block_size,
  merkle_root_mismatch, if◌then◌else◌,
}
use entcoin.Base.Int.{ℤ, pos, ◌+ℤ◌, leb_ℤ, ltb_ℤ}
use entcoin.Core.Model.{
  legacy_block_version, max_future_seconds, max_block_bytes, max_transaction_bytes,
  max_block_transactions, Transaction, Block, rules_at_height,
}
use entcoin.Core.Encoding.{Crypto, decode_hash}
use entcoin.Core.Transaction.{encoded_size}
use entcoin.Core.Time.{last_block, median_time_past}
use entcoin.Core.Difficulty.{expected_difficulty_at}
use entcoin.Core.Merkle.{merkle_root}
use entcoin.Core.Work.{compute_hash, has_valid_work}

abbrev pub genesis_timestamp : ℤ
genesis_timestamp = pos 1_783_983_600

-- sixty-four zeros
abbrev pub zero_hash : Bytes
zero_hash = replicate 64 b'0'

-- `math.MaxInt64`
abbrev pub max_int64 : ℕ
max_int64 = 2 ^ 63 - 1

unfoldable pub maximum_timestamp : ℤ → ℤ
unfolding ◌+ℤ◌
maximum_timestamp now =
    if leb_ℤ now (pos (max_int64 - max_future_seconds))
    then now +ℤ pos max_future_seconds
    else pos max_int64

-- The last header of the window is the previous block.
unfoldable pub ends_at : List Block → Block → Bool
unfolding last_block bytes_eq
ends_at prior_blocks previous = elim (last_block prior_blocks) [
  | err e ↦ false
  | ok last ↦ bytes_eq last.hash previous.hash
]

unfoldable pub validate_header_consensus_fields : Block → Block → List Block → ℤ → Result (Unit {0})
unfolding ends_at rules_at_height median_time_past expected_difficulty_at maximum_timestamp
    decode_hash
validate_header_consensus_fields block previous prior_blocks now = do
  fail_if (not (eqb block.version (rules_at_height block.height).version)) block_version
  fail_if (not (ends_at prior_blocks previous)) prior_window
  fail_if (not (eqb block.height ((previous.height + 1) % 2 ^ 64))) block_height
  fail_if (not (bytes_eq block.previous_hash previous.hash)) previous_hash
  median ← median_time_past prior_blocks
  fail_if (leb_ℤ block.timestamp median) median_time
  fail_if
      ((rules_at_height block.height).require_monotonic_timestamp
        && leb_ℤ block.timestamp previous.timestamp)
      previous_time
  fail_if (ltb_ℤ (maximum_timestamp now) block.timestamp) future_time
  expected ← expected_difficulty_at prior_blocks block.height block.timestamp
  fail_if (not (eqb block.difficulty expected)) difficulty
  fail_if (not (is_ok (decode_hash block.merkle_root))) merkle_root_format

-- the sizes of a block's transactions, with what came before them
unfoldable pub check_sizes : ℕ → List Transaction → Result (Unit {0})
unfolding encoded_size
check_sizes size [] = ok tt
check_sizes size (tx ∷ rest) = do
  let transaction_bytes = encoded_size tx
  fail_if (ltb max_transaction_bytes transaction_bytes) oversized_transaction
  fail_if (ltb max_block_bytes (size + transaction_bytes)) block_size
  check_sizes (size + transaction_bytes) rest

module _ ⦃c : Crypto⦄ where
  unfoldable pub genesis_block : Block
  unfolding merkle_root compute_hash
  genesis_block =
      let block : Block = record {
        version = legacy_block_version;
        height = 0;
        timestamp = genesis_timestamp;
        previous_hash = zero_hash;
        merkle_root = merkle_root [];
        difficulty = 0;
        nonce = 0;
        hash = [];
        transactions = [];
      } in
      record block { hash = compute_hash block }

  -- `reflect.DeepEqual(b, GenesisBlock())`, for which no transactions are the nil slice
  unfoldable pub is_genesis : Block → Bool
  unfolding genesis_block
  is_genesis b =
      let g = genesis_block in
      eqb b.version g.version
      && eqb b.height g.height
      && leb_ℤ b.timestamp g.timestamp
      && leb_ℤ g.timestamp b.timestamp
      && bytes_eq b.previous_hash g.previous_hash
      && bytes_eq b.merkle_root g.merkle_root
      && eqb b.difficulty g.difficulty
      && eqb b.nonce g.nonce
      && bytes_eq b.hash g.hash
      && eqb (length b.transactions) 0

  unfoldable pub validate_header_at_time : Block → Block → List Block → ℤ → Result (Unit {0})
  unfolding validate_header_consensus_fields compute_hash has_valid_work
  validate_header_at_time block previous prior_blocks now = do
    validate_header_consensus_fields block previous prior_blocks now
    fail_if (not (bytes_eq block.hash (compute_hash block))) block_hash
    fail_if (not (has_valid_work block)) work

  unfoldable pub validate_block_header_at_time : Block → Block → List Block → ℤ → Result (Unit {0})
  unfolding validate_header_at_time check_sizes merkle_root
  validate_block_header_at_time block previous prior_blocks now = do
    validate_header_at_time block previous prior_blocks now
    fail_if
        (eqb (length block.transactions) 0
          || ltb max_block_transactions (length block.transactions))
        transaction_count
    check_sizes 256 block.transactions
    fail_if (not (bytes_eq block.merkle_root (merkle_root block.transactions))) merkle_root_mismatch
