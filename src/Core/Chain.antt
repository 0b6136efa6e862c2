-- ===== src/Core/Chain.antt =====
-- internal/core/chain.go: the state of the chain, its replay from the genesis block, and the
-- operations on it. `now i` is the clock's reading while block number `i` is checked.
pub mod Blocks
pub mod Conservation
use entcoin.Base.{
  ℕ, suc, ◌+◌, ◌-◌, ◌^◌, Bool, true, false, ◌&&◌, ◌||◌, not, List, [], ◌∷◌, ◌++◌, Bytes, length,
  drop, ltb, leb, eqb, bytes_eq, bytes_Eq, Result, ok, err, fail_if, ◌>>=◌, ◌>>◌,
  index_out_of_range, chain_identity, genesis_mismatch, first_coinbase, many_coinbases,
  duplicate_transaction, duplicate_coinbase, pending_limit, pending_duplicate, already_exists,
  mined_invalid, if◌then◌else◌,
}
use entcoin.Base.Int.{ℤ, pos, leb_ℤ}
use entcoin.Base.Map.{Map, put, contains}
use entcoin.Core.Model.{
  chain_name, chain_symbol, state_version, max_block_bytes, max_block_transactions,
  max_pending_transactions, Transaction, Block, State, Utxo, rules_at_height,
}
use entcoin.Core.Amount.{subsidy, minted_through, safe_add}
use entcoin.Core.Encoding.{Crypto}
use entcoin.Core.Address.{validate_address}
use entcoin.Core.Transaction.{
  encoded_size, validate_regular_transaction, validate_coinbase, new_coinbase,
}
use entcoin.Core.Coins.{
  Coins, apply_outputs, apply_regular_transaction, validate_coinbase_maturity, mature_utxo,
  balance_from_utxo,
}
use entcoin.Core.Time.{last_block, next_timestamp_at}
use entcoin.Core.Difficulty.{expected_difficulty_at}
use entcoin.Core.Merkle.{merkle_root}
use entcoin.Core.Header.{genesis_block, is_genesis, validate_block_header_at_time}

-- What `replay` builds: the coins and the identifiers of the transactions.
pub record Replay : Type 0 where
  pub coins : Coins
  pub seen : Map Bytes (Unit {0})

abbrev pub empty_replay : Replay
empty_replay = record { coins = record { utxo = []; origins = [] }; seen = [] }

-- `s.Blocks[1:]` and the work of the blocks there
unfoldable pub sum_work : List Block → ℕ
sum_work [] = 0
sum_work (block ∷ rest) = 2 ^ block.difficulty + sum_work rest

unfoldable pub cumulative_work : State → Result ℕ
unfolding sum_work
cumulative_work s = elim s.blocks [
  | [] ↦ err index_out_of_range
  | genesis ∷ blocks ↦ ok (sum_work blocks)
]

module _ ⦃c : Crypto⦄ where
  abbrev pub new_state : State
  new_state = record {
    version = state_version;
    name = chain_name;
    symbol = chain_symbol;
    blocks = genesis_block ∷ [];
    pending = [];
  }

  -- The checks and the updates that a confirmed and a pending transaction share; the result is the
  -- fee.
  unfoldable pub apply_transaction : Transaction → ℕ → Replay → Result (ℕ × Replay)
  unfolding validate_regular_transaction validate_coinbase_maturity apply_regular_transaction put
      bytes_eq
  apply_transaction tx height r = do
    fee ← validate_regular_transaction tx r.coins.utxo
    validate_coinbase_maturity tx r.coins.origins height
    coins ← apply_regular_transaction tx r.coins height
    ok (fee, record { coins = coins; seen = put tx.id tt r.seen })

  -- the regular transactions of a block, with the fees so far
  unfoldable pub apply_transactions : List Transaction → ℕ → ℕ → Replay → Result (ℕ × Replay)
  unfolding apply_transaction safe_add contains bytes_eq
  apply_transactions [] height fees r = ok (fees, r)
  apply_transactions (tx ∷ rest) height fees r = do
    fail_if tx.coinbase many_coinbases
    fail_if (contains tx.id r.seen) duplicate_transaction
    fee ← validate_regular_transaction tx r.coins.utxo
    validate_coinbase_maturity tx r.coins.origins height
    fees' ← safe_add fees fee
    coins ← apply_regular_transaction tx r.coins height
    apply_transactions rest height fees' (record { coins = coins; seen = put tx.id tt r.seen })

  -- The coinbase is checked and applied after the others, which set its reward.
  unfoldable pub connect_transactions : List Transaction → ℕ → Replay → Result Replay
  unfolding apply_transactions subsidy validate_coinbase apply_outputs
  connect_transactions [] height r = err first_coinbase
  connect_transactions (coinbase ∷ rest) height r = do
    fail_if (not coinbase.coinbase) first_coinbase
    (fees, r') ← apply_transactions rest height 0 r
    fail_if (contains coinbase.id r'.seen) duplicate_coinbase
    maximum ← safe_add (subsidy height) fees
    validate_coinbase coinbase maximum
    coins ← apply_outputs coinbase r'.coins height true
    ok (record { coins = coins; seen = put coinbase.id tt r'.seen })

  -- the blocks after `previous`, which is the last of `prior`
  unfoldable pub replay_blocks : (ℕ → ℤ) → List Block → Block → List Block → Replay → Result Replay
  unfolding validate_block_header_at_time connect_transactions
  replay_blocks now prior previous [] r = ok r
  replay_blocks now prior previous (block ∷ rest) r = do
    validate_block_header_at_time block previous prior (now (length prior))
    r' ← connect_transactions block.transactions block.height r
    replay_blocks now (prior ++ block ∷ []) block rest r'

  unfoldable pub apply_pending : List Transaction → ℕ → Replay → Result Replay
  unfolding apply_transaction contains bytes_eq
  apply_pending [] next_height r = ok r
  apply_pending (tx ∷ rest) next_height r = do
    fail_if (contains tx.id r.seen) pending_duplicate
    (_, r') ← apply_transaction tx next_height r
    apply_pending rest next_height r'

  abbrev replay_from : (ℕ → ℤ) → List Block → Result Replay
  replay_from now [] = err genesis_mismatch
  replay_from now (genesis ∷ blocks) = do
    fail_if (not (is_genesis genesis)) genesis_mismatch
    replay_blocks now (genesis ∷ []) genesis blocks empty_replay

  -- `uint64(len(s.Blocks))`
  abbrev pub next_height : State → ℕ
  next_height s = length s.blocks

  unfoldable pub replay_pending : State → Replay → Result Replay
  unfolding apply_pending
  replay_pending s r = do
    fail_if (ltb max_pending_transactions (length s.pending)) pending_limit
    apply_pending s.pending (next_height s) r

  unfoldable pub replay : (ℕ → ℤ) → State → Bool → Result Replay
  unfolding is_genesis replay_blocks replay_pending
  replay now s include_pending = do
    fail_if
        (not (leb_ℤ s.version state_version && leb_ℤ state_version s.version)
          || (not (bytes_eq s.name chain_name) || not (bytes_eq s.symbol chain_symbol)))
        chain_identity
    r ← replay_from now s.blocks
    if include_pending then replay_pending s r else ok r
