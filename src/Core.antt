-- ===== src/Core.antt =====
-- internal/core: the data model, the consensus rules and the chain state.
pub mod Model
pub mod Amount
pub mod Encoding
pub mod Address
pub mod Transaction
pub mod Coins
pub mod Time
pub mod Difficulty
pub mod Merkle
pub mod Work
pub mod Header
pub mod Chain
pub mod State
