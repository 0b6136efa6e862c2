-- ===== src/Core/State.antt =====
-- internal/core/chain.go: the operations on a chain state. An operation that changes the state
-- returns it with its result; an error leaves what the source leaves.
pub mod Accepting
pub mod Funds
use entcoin.Base.{
  ℕ, suc, ◌+◌, ◌-◌, ◌^◌, Bool, true, false, ◌||◌, List, [], ◌∷◌, ◌++◌, Bytes, length, drop, ltb,
  leb, bytes_Eq, is_ok, Result, ok, err, fail_if, ◌>>=◌, ◌>>◌, already_exists,
  duplicate_transaction, pending_limit, pending_duplicate, mined_invalid, if◌then◌else◌,
}
use entcoin.Base.Int.{ℤ, pos}
use entcoin.Base.Map.{put, contains}
use entcoin.Core.Model.{
  max_block_bytes, max_block_transactions, max_pending_transactions, Transaction, Block, State,
  Utxo, rules_at_height,
}
use entcoin.Core.Amount.{subsidy, minted_through, safe_add}
use entcoin.Core.Encoding.{Crypto}
use entcoin.Core.Address.{validate_address}
use entcoin.Core.Transaction.{encoded_size, validate_regular_transaction, new_coinbase}
use entcoin.Core.Coins.{
  Coins, apply_regular_transaction, validate_coinbase_maturity, mature_utxo, balance_from_utxo,
}
use entcoin.Core.Time.{last_block, next_timestamp_at}
use entcoin.Core.Difficulty.{expected_difficulty_at}
use entcoin.Core.Merkle.{merkle_root}
use entcoin.Core.Chain.{
  Replay, apply_transaction, apply_pending, replay, replay_pending, next_height,
}

-- `nil` or the error
abbrev pub error_of {ℓ} : {A : Type ℓ} → Result A → Result (Unit {0})
error_of (ok a) = ok tt
error_of (err e) = err e

module _ ⦃c : Crypto⦄ (now : ℕ → ℤ) where
  unfoldable pub validate : State → Result (Unit {0})
  unfolding replay
  validate s = error_of (replay now s true)

  unfoldable pub validate_confirmed : State → Result (Unit {0})
  unfolding replay
  validate_confirmed s = error_of (replay now s false)

  unfoldable pub confirmed_utxo : State → Result Utxo
  unfolding replay
  confirmed_utxo s = do r ← replay now s false; ok r.coins.utxo

  unfoldable pub spendable_utxo : State → Result Utxo
  unfolding replay mature_utxo
  spendable_utxo s = do
    r ← replay now s true
    ok (mature_utxo r.coins.utxo r.coins.origins (next_height s))

  unfoldable pub balance : State → Bytes → Bool → Result ℕ
  unfolding validate_address spendable_utxo confirmed_utxo balance_from_utxo
  balance s address include_pending = do
    validate_address address
    utxo ← if include_pending then spendable_utxo s else confirmed_utxo s
    balance_from_utxo utxo address

  -- the confirmed and the spendable balance
  unfoldable pub balances : State → Bytes → Result (ℕ × ℕ)
  unfolding validate_address replay balance_from_utxo replay_pending mature_utxo
  balances s address = do
    validate_address address
    r ← replay now s false
    confirmed ← balance_from_utxo r.coins.utxo address
    r' ← replay_pending s r
    spendable ←
        balance_from_utxo (mature_utxo r'.coins.utxo r'.coins.origins (next_height s)) address
    ok (confirmed, spendable)

  -- the checks of `AddPending`
  unfoldable pub check_pending : State → Transaction → Result Replay
  unfolding replay contains apply_transaction
  check_pending s tx = do
    fail_if (leb max_pending_transactions (length s.pending)) pending_limit
    r ← replay now s true
    fail_if (contains tx.id r.seen) already_exists
    (_, r') ← apply_transaction tx (next_height s) r
    ok r'

  abbrev append_pending : State → Transaction → Result Replay → Result (Unit {0}) × State
  append_pending s tx (ok _) = (ok tt, record s { pending = s.pending ++ tx ∷ [] })
  append_pending s tx (err e) = (err e, s)

  unfoldable pub add_pending : State → Transaction → Result (Unit {0}) × State
  unfolding check_pending
  add_pending s tx = append_pending s tx (check_pending s tx)

  unfoldable pub total_issued : State → Result ℕ
  unfolding replay minted_through
  total_issued s = do _ ← replay now s false; ok (minted_through (length s.blocks - 1))

module _ ⦃c : Crypto⦄ where
  -- The transactions that a new block takes from the front of the pending ones, with their fees:
  -- `count` are taken, and `block_bytes` and `fees` are what they come to.
  unfoldable pub select_pending :
      List Transaction → ℕ → ℕ → ℕ → ℕ → Replay → Result (List Transaction × ℕ)
  unfolding encoded_size contains validate_regular_transaction validate_coinbase_maturity safe_add
      apply_regular_transaction put
  select_pending [] height count block_bytes fees r = ok ([], fees)
  select_pending (tx ∷ rest) height count block_bytes fees r =
      let taken : Result (List Transaction × ℕ) = (do
        fail_if (contains tx.id r.seen) duplicate_transaction
        fee ← validate_regular_transaction tx r.coins.utxo
        validate_coinbase_maturity tx r.coins.origins height
        fees' ← safe_add fees fee
        coins ← apply_regular_transaction tx r.coins height
        (selected, fees'') ←
            select_pending rest height (count + 1) (block_bytes + encoded_size tx) fees'
              (record { coins = coins; seen = put tx.id tt r.seen })
        ok (tx ∷ selected, fees'')) in
      if leb (max_block_transactions - 1) count
        || ltb max_block_bytes (block_bytes + encoded_size tx)
      then ok ([], fees)
      else taken

-- What `Mine` asks of its environment: the clock, the random nonce of the coinbase and the search
-- for the nonce of the header, which may be cancelled.
pub record Miner : Type 0 where
  pub now : ℕ → ℤ
  pub block_time : ℤ
  pub random : Result ℕ
  pub mine_block : Block → Result Block

module _ ⦃c : Crypto⦄ (m : Miner) where
  -- the block that is handed to the search, and the number of pending transactions in it
  unfoldable pub block_template : State → Bytes → Result (Block × ℕ)
  unfolding replay validate_address select_pending subsidy safe_add new_coinbase last_block
      next_timestamp_at expected_difficulty_at merkle_root rules_at_height
  block_template s address = do
    r ← replay m.now s false
    validate_address address
    let height = next_height s
    (selected, fees) ← select_pending s.pending height 0 512 0 r
    reward ← safe_add (subsidy height) fees
    coinbase ← new_coinbase address height reward m.random
    let transactions = coinbase ∷ selected
    previous ← last_block s.blocks
    timestamp ← next_timestamp_at s.blocks m.block_time
    difficulty ← expected_difficulty_at s.blocks height timestamp
    let block : Block = record {
      version = (rules_at_height height).version;
      height = height;
      timestamp = timestamp;
      previous_hash = previous.hash;
      merkle_root = merkle_root transactions;
      difficulty = difficulty;
      nonce = 0;
      hash = [];
      transactions = transactions;
    }
    ok (block, length selected)

  abbrev pub extended : State → Block → ℕ → State
  extended s mined taken = record s {
    blocks = s.blocks ++ mined ∷ [];
    pending = drop taken s.pending;
  }

  -- The new state stands only if it validates; otherwise the old one is put back.
  unfoldable pub accept_mined : State → Block → ℕ → Result Block × State
  unfolding validate
  accept_mined s mined taken =
      let s' = extended s mined taken in
      if is_ok (validate m.now s') then (ok mined, s') else (err mined_invalid, s)

  abbrev mined_or_failed : State → ℕ → Result Block → Result Block × State
  mined_or_failed s taken (err e) = (err e, s)
  mined_or_failed s taken (ok mined) = accept_mined s mined taken

  abbrev from_template : State → Result (Block × ℕ) → Result Block × State
  from_template s (err e) = (err e, s)
  from_template s (ok (block, taken)) = mined_or_failed s taken (m.mine_block block)

  unfoldable pub mine : State → Bytes → Result Block × State
  unfolding block_template accept_mined
  mine s address = from_template s (block_template s address)
