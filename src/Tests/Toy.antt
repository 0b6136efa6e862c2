-- ===== src/Tests/Toy.antt =====
-- A toy hash and curve, at which the definitions run, and a chain of two blocks over them.
use entcoin.Base.{
  ℕ, ◌+◌, ◌*◌, ◌%◌, ◌^◌, ◌-◌, ◌<◌, ◌≡◌, refl, true, false, none, some, List, [], ◌∷◌, ◌++◌, Bytes,
  length, replicate, arith, Result, ok, err,
}
use entcoin.Base.Int.{ℤ, pos, ◌≤ℤ◌}
use entcoin.Core.Model.{initial_difficulty, TxInput, Transaction, Block, State}
use entcoin.Core.Encoding.{Crypto, CryptoLaws, enc_uint32}
use entcoin.Core.Address.{address_from_public_key, validate_address}
use entcoin.Core.Transaction.{outpoint_of, compute_id, validate_regular_transaction}
use entcoin.Core.Coins.{Coins, apply_regular_transaction}
use entcoin.Core.Work.{with_nonce}
use entcoin.Core.Header.{genesis_block, validate_block_header_at_time}
use entcoin.Core.Chain.{Replay, empty_replay, replay, new_state}
use entcoin.Core.State.{Miner, mine}
use entcoin.Ledger.Tables.{Tables, Tip, tip_from_query}
use entcoin.Ledger.Connect.{connect_block_at_time}
use entcoin.Ledger.Mempool.{rebuild_mempool}

-- a checksum of 32 bits
unfoldable pub toy_sum : ℕ → Bytes → ℕ
toy_sum acc [] = acc
toy_sum acc (b ∷ bs) = toy_sum ((acc * 257 + b + 1) % 2 ^ 32) bs

abbrev pub toy_sha : Bytes → Bytes
toy_sha x = replicate 28 0 ++ enc_uint32 (toy_sum 7 x)

instance abbrev pub toy : Crypto
toy = record {
  sha256 = toy_sha;
  unmarshal_point = λ _. some (1, 1);
  marshal_point = λ _. replicate 65 4;
  base_mult = λ _. (1, 1);
  unmarshal_signature = λ _. some (pos 1, pos 1, []);
  verify = λ _ _ _ _. true;
}

pub toy_laws : CryptoLaws toy
unfolding enc_uint32
toy_laws = record { sha256_length = λ x. refl; sha256_bytes = λ x. omega arith }

abbrev pub alice : Bytes
unfolding address_from_public_key toy_sum enc_uint32
alice = address_from_public_key (1 ∷ [])

-- The clock stands two thousand seconds after the genesis block.
abbrev pub clock : ℕ → ℤ
clock _ = pos 1_783_985_600

abbrev pub miner : Miner
unfolding with_nonce toy_sum enc_uint32
miner = record {
  now = clock;
  block_time = pos 1_783_985_600;
  random = ok 5;
  mine_block = λ b. ok (with_nonce b 0);
}

abbrev pub two_blocks : State
unfolding mine toy_sum enc_uint32
two_blocks = (mine miner new_state alice).1

abbrev pub or_empty_replay : Result Replay → Replay
or_empty_replay (ok r) = r
or_empty_replay (err e) = empty_replay

abbrev pub two_blocks_replay : Replay
unfolding mine replay toy_sum enc_uint32
two_blocks_replay = or_empty_replay (replay clock two_blocks false)

pub two_blocks-accepted : replay clock two_blocks false ≡ ok two_blocks_replay
unfolding mine replay toy_sum enc_uint32 miner
two_blocks-accepted = refl

pub two_blocks-length : length two_blocks.blocks ≡ 2
unfolding mine toy_sum enc_uint32 miner
two_blocks-length = refl

abbrev pub key : Bytes
key = replicate 65 4

abbrev pub key_address : Bytes
unfolding address_from_public_key toy_sum enc_uint32
key_address = address_from_public_key key

-- A transaction that spends 100 and pays 90, with a fee of 10.
abbrev pub spent_input : TxInput
spent_input = record {
  tx_id = replicate 64 b'0';
  output_index = 0;
  public_key = key;
  signature = 1 ∷ [];
}

abbrev pub unsigned_payment : Transaction
unsigned_payment = record {
  id = [];
  coinbase = false;
  nonce = 9;
  inputs = spent_input ∷ [];
  outputs = record { amount = 90; address = alice } ∷ [];
}

abbrev pub payment : Transaction
unfolding compute_id toy_sum enc_uint32
payment = record unsigned_payment { id = compute_id unsigned_payment }

abbrev pub funded : Coins
funded = record {
  utxo = (outpoint_of spent_input, record { amount = 100; address = key_address }) ∷ [];
  origins = (outpoint_of spent_input, record { created_height = 1; coinbase = false }) ∷ [];
}

abbrev pub or_coins : Result Coins → Coins
or_coins (ok coins) = coins
or_coins (err e) = record { utxo = []; origins = [] }

abbrev pub paid : Coins
unfolding apply_regular_transaction compute_id toy_sum enc_uint32
paid = or_coins (apply_regular_transaction payment funded 5)

pub payment-accepted : validate_regular_transaction payment funded.utxo ≡ ok 10
unfolding validate_regular_transaction compute_id address_from_public_key toy_sum enc_uint32
payment-accepted = refl

pub payment-applied : apply_regular_transaction payment funded 5 ≡ ok paid
unfolding apply_regular_transaction compute_id address_from_public_key toy_sum enc_uint32
payment-applied = refl

pub two_blocks-alice : validate_address alice ≡ ok tt
unfolding validate_address address_from_public_key toy_sum enc_uint32
two_blocks-alice = refl

abbrev pub genesis : Block
unfolding genesis_block toy_sum enc_uint32
genesis = genesis_block

-- The block of `two_blocks` after the genesis block.
abbrev pub second : List Block → Block
second (a ∷ b ∷ rest) = b
second other = genesis

abbrev pub first_block : Block
unfolding mine toy_sum enc_uint32 miner genesis_block
first_block = second two_blocks.blocks

pub first_block-accepted :
    validate_block_header_at_time first_block genesis (genesis ∷ []) (clock 1) ≡ ok tt
unfolding validate_block_header_at_time mine toy_sum enc_uint32 miner genesis_block
first_block-accepted = refl

-- Tables with the genesis block and one output, which pays `payment` with a fee above the minimum.
abbrev pub funded_tables : Tables
funded_tables = record {
  pruned_through = 0;
  prune_depth = 0;
  blocks = record { header = genesis; cumulative_work = 1; body = none } ∷ [];
  transactions = [];
  transaction_addresses = [];
  utxos =
      (
        outpoint_of spent_input,
        record { amount = 100_000; address = key_address; created_height = 0; coinbase = false },
      )
      ∷ [];
  block_undo = [];
  mempool = [];
  mempool_inputs = [];
  mempool_outputs = [];
}

abbrev or_tables : Result Tables → Tables
or_tables (ok tables) = tables
or_tables (err e) = funded_tables

abbrev pub rebuilt_tables : Tables
unfolding rebuild_mempool compute_id address_from_public_key toy_sum enc_uint32
rebuilt_tables = or_tables (rebuild_mempool funded_tables (payment ∷ []) (pos 7))

pub rebuilt_tables-accepted :
    rebuild_mempool funded_tables (payment ∷ []) (pos 7) ≡ ok rebuilt_tables
unfolding rebuild_mempool compute_id address_from_public_key toy_sum enc_uint32 genesis_block
rebuilt_tables-accepted = refl

pub rebuilt_tables-length : length rebuilt_tables.mempool ≡ 1
unfolding rebuild_mempool compute_id address_from_public_key toy_sum enc_uint32 genesis_block
rebuilt_tables-length = refl

pub first_block-difficulty : first_block.difficulty ≡ initial_difficulty
unfolding first_block mine toy_sum enc_uint32 miner genesis_block
first_block-difficulty = refl

pub alice-length : length alice < 2 ^ 64
unfolding address_from_public_key toy_sum enc_uint32
alice-length = omega arith

abbrev pub connected_tables : Tables
unfolding connect_block_at_time mine toy_sum enc_uint32 miner genesis_block
connected_tables = or_tables (connect_block_at_time funded_tables first_block (clock 1))

pub connected_tables-accepted :
    connect_block_at_time funded_tables first_block (clock 1) ≡ ok connected_tables
unfolding connect_block_at_time mine toy_sum enc_uint32 miner genesis_block first_block
connected_tables-accepted = refl

abbrev pub genesis_tip : Tip
genesis_tip = record {
  height = genesis.height;
  hash = genesis.hash;
  timestamp = genesis.timestamp;
  difficulty = genesis.difficulty;
  work = 1;
}

pub funded_tables-tip : tip_from_query funded_tables ≡ ok genesis_tip
unfolding tip_from_query
funded_tables-tip = refl

pub first_block-timestamp : first_block.timestamp ≤ℤ pos (2 ^ 63 - 1)
unfolding first_block mine toy_sum enc_uint32 miner genesis_block
first_block-timestamp = omega arith
