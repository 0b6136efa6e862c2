-- ===== src/Ledger.antt =====
-- internal/ledger: the chain and the pending transactions in database tables.
pub mod Tables
pub mod Mempool
pub mod Apply
pub mod Connect
pub mod Disconnect
pub mod Collector
pub mod Reorg
pub mod Prune
pub mod Import
pub mod Undo
pub mod Mining
pub mod Selection
