-- ===== src/Ledger/Mining.antt =====
-- internal/ledger/mining.go: the order in which pending transactions are mined, the block that is
-- offered to the miner, and the mined block's way into the chain.
pub mod Priority
pub mod Candidate
pub mod Commit
use entcoin.Base.{
  ℕ, zero, suc, ◌+◌, ◌-◌, ◌*◌, ◌/◌, ◌%◌, ◌^◌, Bool, true, false, ◌&&◌, ◌||◌, not, Option, none,
  some, List, [], ◌∷◌, ◌++◌, map, length, get_elem?, Bytes, ltb, leb, eqb, bytes_eq, bytes_Eq,
  Result, ok, err, fail_if, or_fail, is_ok, ◌>>=◌, ◌>>◌, if◌then◌else◌, mining_metadata,
  dependency_cycle, selected_twice, immature, stale_tip, chain_exhausted, Error, index_out_of_range,
}
use entcoin.Base.Int.{ℤ, pos}
use entcoin.Base.Map.{Map, get, put, contains, remove}
use entcoin.Core.Model.{
  TxInput, TxOutput, Transaction, Block, Outpoint, outpoint_eq, outpoint_Eq, Utxo,
  max_transaction_bytes, max_block_bytes, max_block_transactions, rules_at_height,
}
use entcoin.Core.Amount.{subsidy}
use entcoin.Core.Encoding.{Crypto}
use entcoin.Core.Address.{validate_address}
use entcoin.Core.Transaction.{outpoint_of, encoded_size, validate_regular_transaction, new_coinbase}
use entcoin.Core.Coins.{is_coinbase_mature}
use entcoin.Core.Time.{next_timestamp_at}
use entcoin.Core.Difficulty.{expected_difficulty_at}
use entcoin.Core.Merkle.{merkle_root}
use entcoin.Core.Work.{compute_hash}
use entcoin.Ledger.Tables.{Tables, Tip, MempoolRow, max_int64, tip_from_query, commit, output_of}
use entcoin.Ledger.Mempool.{rebuild_mempool}
use entcoin.Ledger.Apply.{checked_add, header_window_from_query, load_utxo, outpoint_at}
use entcoin.Ledger.Connect.{connect_block_at_time}
use entcoin.Ledger.Selection.{start_selection, select_transactions}

-- `sequence` is the place in the order of the rows.
pub record MiningItem : Type 0 where
  pub transaction : Transaction
  pub fee : ℕ
  pub encoded_size : ℕ
  pub sequence : ℕ

-- `bits.Mul64`: the high and the low word of the product
unfoldable pub mul64 : ℕ → ℕ → ℕ × ℕ
mul64 x y = (x * y / 2 ^ 64, x * y % 2 ^ 64)

unfoldable pub higher_mining_priority : MiningItem → MiningItem → Bool
unfolding mul64
higher_mining_priority left right =
    let (left_high, left_low) = mul64 left.fee right.encoded_size in
    let (right_high, right_low) = mul64 right.fee left.encoded_size in
    if not (eqb left_high right_high)
    then ltb right_high left_high
    else if not (eqb left_low right_low)
    then ltb right_low left_low
    else if not (eqb left.fee right.fee)
    then ltb right.fee left.fee
    else ltb left.sequence right.sequence

-- the checks on one row of the mempool
unfoldable pub mining_item : ℕ → MempoolRow → Result MiningItem
unfolding encoded_size bytes_eq
mining_item sequence row = do
  fail_if (eqb row.encoded_size 0 || ltb max_transaction_bytes row.encoded_size) mining_metadata
  fail_if
      (not (bytes_eq row.body.id row.tx_id) || not (eqb (encoded_size row.body) row.encoded_size))
      mining_metadata
  ok (record {
    transaction = row.body;
    fee = row.fee;
    encoded_size = row.encoded_size;
    sequence = sequence;
  })

unfoldable pub mining_items : ℕ → List MempoolRow → Result (List MiningItem)
unfolding mining_item
mining_items sequence [] = ok []
mining_items sequence (row ∷ rows) = do
  item ← mining_item sequence row
  items ← mining_items (sequence + 1) rows
  ok (item ∷ items)

-- `byID`, from the index `index` on
unfoldable pub index_items : ℕ → List MiningItem → Map Bytes ℕ → Result (Map Bytes ℕ)
unfolding contains put bytes_eq
index_items index [] by_id = ok by_id
index_items index (item ∷ rest) by_id = do
  fail_if (eqb (length item.transaction.id) 0 || eqb item.encoded_size 0) mining_metadata
  fail_if (contains item.transaction.id by_id) mining_metadata
  index_items (index + 1) rest (put item.transaction.id index by_id)

-- the pending parents of a transaction, one for each input that spends an output of one
unfoldable pub pending_parents : Map Bytes ℕ → List TxInput → List ℕ
unfolding get bytes_eq
pending_parents by_id [] = []
pending_parents by_id (input ∷ rest) =
    let parents = pending_parents by_id rest in
    elim (get input.tx_id by_id) [ none ↦ parents | some parent ↦ parent ∷ parents ]

-- how often `index` stands in a list
unfoldable pub occurrences : ℕ → List ℕ → ℕ
occurrences index [] = 0
occurrences index (j ∷ rest) = (if eqb index j then 1 else 0) + occurrences index rest

-- an item that waits for `indegree` inputs, with its parents
pub record Waiting : Type 0 where
  pub index : ℕ
  pub item : MiningItem
  pub parents : List ℕ
  pub indegree : ℕ

unfoldable pub waiting_items : ℕ → Map Bytes ℕ → List MiningItem → List Waiting
unfolding pending_parents
waiting_items index by_id [] = []
waiting_items index by_id (item ∷ rest) =
    let parents = pending_parents by_id item.transaction.inputs in
    record { index = index; item = item; parents = parents; indegree = length parents }
    ∷ waiting_items (index + 1) by_id rest

-- the items without a pending parent, and the others
unfoldable pub ready_items : List Waiting → List Waiting
ready_items [] = []
ready_items (w ∷ rest) =
    let ready = ready_items rest in if eqb w.indegree 0 then w ∷ ready else ready

unfoldable pub blocked_items : List Waiting → List Waiting
blocked_items [] = []
blocked_items (w ∷ rest) =
    let blocked = blocked_items rest in if eqb w.indegree 0 then blocked else w ∷ blocked

-- `container/heap` pops an item that none in the heap goes before; the order is total, so that is
-- the first of all. `best` is the first so far.
unfoldable pub pop_best : Waiting → List Waiting → Waiting × List Waiting
unfolding higher_mining_priority
pop_best best [] = (best, [])
pop_best best (w ∷ rest) =
    let better = higher_mining_priority w.item best.item in
    let (first, others) = pop_best (if better then w else best) rest in
    (first, (if better then best else w) ∷ others)

-- the children of a mined item wait for it no more
unfoldable pub release : ℕ → List Waiting → List Waiting
unfolding occurrences
release index [] = []
release index (w ∷ rest) =
    record w { indegree = w.indegree - occurrences index w.parents } ∷ release index rest

-- `queue` holds the heap and `blocked` the items that wait. Each round takes one item, so as many
-- rounds as there are items are enough.
unfoldable pub drain_queue : ℕ → List Waiting → List Waiting → List Transaction
unfolding pop_best release ready_items blocked_items
drain_queue zero queue blocked = []
drain_queue (suc rounds) [] blocked = []
drain_queue (suc rounds) (w ∷ rest) blocked =
    let (first, others) = pop_best w rest in
    let released = release first.index blocked in
    first.item.transaction
    ∷ drain_queue rounds (others ++ ready_items released) (blocked_items released)

unfoldable pub prioritize_mempool_for_mining : List MiningItem → Result (List Transaction)
unfolding index_items waiting_items ready_items blocked_items drain_queue
prioritize_mempool_for_mining items = do
  by_id ← index_items 0 items []
  let waiting = waiting_items 0 by_id items
  let transactions = drain_queue (length items) (ready_items waiting) (blocked_items waiting)
  fail_if (not (eqb (length transactions) (length items))) dependency_cycle
  ok transactions

unfoldable pub mempool_transactions_from_query : Tables → Result (List Transaction)
unfolding mining_items prioritize_mempool_for_mining
mempool_transactions_from_query tables = do
  items ← mining_items 1 tables.mempool
  prioritize_mempool_for_mining items

module _ ⦃c : Crypto⦄ where
  abbrev pub candidate_block : ℕ → ℤ → Bytes → ℕ → List Transaction → Block
  unfolding rules_at_height merkle_root
  candidate_block height timestamp previous_hash difficulty transactions = record {
    version = (rules_at_height height).version;
    height = height;
    timestamp = timestamp;
    previous_hash = previous_hash;
    merkle_root = merkle_root transactions;
    difficulty = difficulty;
    nonce = 0;
    hash = [];
    transactions = transactions;
  }

  -- the block on `tip` with the given transactions
  unfoldable pub complete_block : Tip → List Block → ℤ → List Transaction → Result Block
  unfolding next_timestamp_at expected_difficulty_at candidate_block compute_hash
  complete_block tip headers now transactions = do
    let height = tip.height + 1
    timestamp ← next_timestamp_at headers now
    difficulty ← expected_difficulty_at headers height timestamp
    let block = candidate_block height timestamp tip.hash difficulty transactions
    ok (record block { hash = compute_hash block })

  -- `reserve_random` and `random` are what NewCoinbase reads, the first for the size it reserves. The
  -- result is the coinbase and the selected transactions.
  unfoldable pub choose_transactions :
      Tables → Bytes → ℕ → List Transaction → Result ℕ → Result ℕ → Result (List Transaction)
  unfolding new_coinbase encoded_size select_transactions subsidy checked_add
  choose_transactions tables address height pending reserve_random random = do
    reserve ← new_coinbase address height 1 reserve_random
    selected ←
        select_transactions tables (start_selection height (256 + encoded_size reserve)) pending
    reward ← checked_add (subsidy height) selected.1
    coinbase ← new_coinbase address height reward random
    ok (coinbase ∷ selected.0)

  unfoldable pub build_mining_candidate_at_time :
      Tables → Bytes → ℤ → Result ℕ → Result ℕ → Result (Block × Tip)
  unfolding validate_address tip_from_query header_window_from_query mempool_transactions_from_query
      choose_transactions complete_block
  build_mining_candidate_at_time tables address now reserve_random random = do
    validate_address address
    tip ← tip_from_query tables
    headers ← header_window_from_query tables tip.height
    pending ← mempool_transactions_from_query tables
    fail_if (leb max_int64 tip.height) chain_exhausted
    transactions ← choose_transactions tables address (tip.height + 1) pending reserve_random random
    block ← complete_block tip headers now transactions
    ok (block, tip)

  -- a block for the tip that the miner worked on
  unfoldable pub commit_in_tables : Tables → Block → Tip → ℤ → ℤ → Result Tables
  unfolding tip_from_query connect_block_at_time rebuild_mempool bytes_eq
  commit_in_tables tables block expected_tip validation_time now = do
    current ← tip_from_query tables
    fail_if
        (not (eqb current.height expected_tip.height)
          || not (bytes_eq current.hash expected_tip.hash))
        stale_tip
    connected ← connect_block_at_time tables block validation_time
    rebuild_mempool connected [] now

  unfoldable pub commit_mined_block_at_time :
      Tables → Block → Tip → ℤ → ℤ → Result (Unit {0}) × Tables
  unfolding commit_in_tables
  commit_mined_block_at_time tables block expected_tip validation_time now =
      commit tables (commit_in_tables tables block expected_tip validation_time now)
