-- ===== src/Tests.antt =====
-- Witnesses: each property at a concrete input.
mod Toy
mod ToyChain
mod Witnesses
mod LedgerWitnesses
mod ChainWitnesses
mod EntpayWitnesses
