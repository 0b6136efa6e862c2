-- ===== src/Core/Model.antt =====
-- internal/core/model.go: constants, transactions, blocks and the rules at a height.
use entcoin.Base.{
  ℕ, ◌*◌, ◌^◌, ◌≡◌, ◌↔◌, Bool, true, false, ◌&&◌, List, arith, leb, eqb, Eq, Bytes, bytes_eq,
  bytes_eq_iff, if◌then◌else◌, [], ◌∷◌,
}
use entcoin.Base.Int.{ℤ, pos}
use entcoin.Base.Map.{Map}

-- `^uint64(0)`
abbrev pub max_uint64 : ℕ
max_uint64 = 0xffff_ffff_ffff_ffff

-- "Entropy", "ENT", "entropy-mainnet-v1"
abbrev pub chain_name : Bytes
chain_name = b'E' ∷ b'n' ∷ b't' ∷ b'r' ∷ b'o' ∷ b'p' ∷ b'y' ∷ []

abbrev pub chain_symbol : Bytes
chain_symbol = b'E' ∷ b'N' ∷ b'T' ∷ []

abbrev pub network_id : Bytes
network_id =
    b'e' ∷ b'n' ∷ b't' ∷ b'r' ∷ b'o' ∷ b'p' ∷ b'y' ∷ b'-' ∷ b'm' ∷ b'a' ∷ b'i' ∷ b'n' ∷ b'n' ∷ b'e'
    ∷ b't' ∷ b'-' ∷ b'v' ∷ b'1' ∷ []

abbrev pub state_version : ℤ
state_version = pos 1

abbrev pub legacy_block_version : ℕ
legacy_block_version = 1

abbrev pub upgraded_block_version : ℕ
upgraded_block_version = 2

abbrev pub consensus_upgrade_height : ℕ
consensus_upgrade_height = 125_555

abbrev pub asert_anchor_height : ℕ
asert_anchor_height = 123_265

abbrev pub asert_anchor_timestamp : ℕ
asert_anchor_timestamp = 1_785_201_853

abbrev pub asert_anchor_difficulty : ℕ
asert_anchor_difficulty = 35

abbrev pub asert_half_life_seconds : ℕ
asert_half_life_seconds = 600

abbrev pub initial_difficulty : ℕ
initial_difficulty = 22

abbrev pub adjustment_blocks : ℕ
adjustment_blocks = 60

abbrev pub first_adjustment : ℕ
first_adjustment = 120

abbrev pub minimum_difficulty : ℕ
minimum_difficulty = 4

abbrev pub maximum_difficulty : ℕ
maximum_difficulty = 255

abbrev pub median_time_blocks : ℕ
median_time_blocks = 11

abbrev pub max_future_seconds : ℕ
max_future_seconds = 120

abbrev pub max_block_bytes : ℕ
max_block_bytes = 2 ^ 20

abbrev pub max_transaction_bytes : ℕ
max_transaction_bytes = 64 * 2 ^ 10

abbrev pub max_block_transactions : ℕ
max_block_transactions = 2_000

abbrev pub max_transaction_inputs : ℕ
max_transaction_inputs = 256

abbrev pub max_transaction_outputs : ℕ
max_transaction_outputs = 256

abbrev pub max_pending_transactions : ℕ
max_pending_transactions = 5_000

abbrev pub coinbase_maturity : ℕ
coinbase_maturity = 100

abbrev pub coinbase_maturity_activation_height : ℕ
coinbase_maturity_activation_height = 1

pub record TxInput : Type 0 where
  pub tx_id : Bytes
  pub output_index : ℕ
  pub public_key : Bytes
  pub signature : Bytes

pub record TxOutput : Type 0 where
  pub amount : ℕ
  pub address : Bytes

pub record Transaction : Type 0 where
  pub id : Bytes
  pub coinbase : Bool
  pub nonce : ℕ
  pub inputs : List TxInput
  pub outputs : List TxOutput

-- `timestamp` is an int64, the other numbers are unsigned.
pub record Block : Type 0 where
  pub version : ℕ
  pub height : ℕ
  pub timestamp : ℤ
  pub previous_hash : Bytes
  pub merkle_root : Bytes
  pub difficulty : ℕ
  pub nonce : ℕ
  pub hash : Bytes
  pub transactions : List Transaction

pub record State : Type 0 where
  pub version : ℤ
  pub name : Bytes
  pub symbol : Bytes
  pub blocks : List Block
  pub pending : List Transaction

pub record Outpoint : Type 0 where
  pub tx_id : Bytes
  pub index : ℕ

-- Go compares the keys of a map field by field.
unfoldable pub outpoint_eq : Outpoint → Outpoint → Bool
unfolding bytes_eq
outpoint_eq a b = eqb a.index b.index && bytes_eq a.tx_id b.tx_id

pub outpoint_eq_iff : (a b : Outpoint) → (outpoint_eq a b ≡ true) ↔ (a ≡ b)
unfolding outpoint_eq
outpoint_eq_iff a b = ground (arith, bytes_eq_iff a.tx_id b.tx_id)

instance abbrev pub outpoint_Eq : Eq Outpoint
outpoint_Eq = record { test = outpoint_eq; test_iff = outpoint_eq_iff }

abbrev pub Utxo : Type 0
Utxo = Map Outpoint TxOutput

pub data DifficultyAlgorithm : Type 0 where
  legacy_epoch_difficulty integer_asert_difficulty : DifficultyAlgorithm

pub record ConsensusRules : Type 0 where
  pub version : ℕ
  pub difficulty : DifficultyAlgorithm
  pub require_monotonic_timestamp : Bool

unfoldable pub rules_at_height : ℕ → ConsensusRules
rules_at_height height =
    if leb consensus_upgrade_height height
    then record {
      version = upgraded_block_version;
      difficulty = integer_asert_difficulty;
      require_monotonic_timestamp = true;
    }
    else record {
      version = legacy_block_version;
      difficulty = legacy_epoch_difficulty;
      require_monotonic_timestamp = false;
    }
