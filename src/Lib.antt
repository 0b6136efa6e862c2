-- ===== src/Lib.antt =====
-- Entcoin's consensus core, ledger and invoices, from internal/core, internal/ledger and entpay. (Paths are
-- from the repository's root.)
--
-- The program is a node of a proof-of-work currency. internal/core holds the data model, the
-- consensus rules and an in-memory chain state; internal/ledger keeps the same chain in a database;
-- internal/node, internal/vault, internal/updater, entpay and the applications stand round them.
-- This library models internal/core, of internal/ledger the life of a pending transaction, the changes
-- of the chain, pruning and the choice of the block to mine, and of entpay the invoices.
--
-- Base: tests on numbers, lists, Go's error results (Base/Errors), equality tests, integers for
--   int64 and big.Int (Base/Int), and maps as association lists (Base/Map).
-- Core/Model: model.go, the constants, the records and RulesAtHeight (`rules_at_height`).
-- Core/Amount: amount.go; Subsidy, MintedThrough and safeAdd, and in Amount/Decimal ParseAmount and
--   FormatAmount over the bytes of an ASCII text.
-- Core/Encoding: encoding.go; an encoder method is the bytes that it appends.
-- Core/Address: wallet.go; addresses, AddressesEqual and the checks of a wallet.
-- Core/Transaction: transaction.go; encoding, ComputeID, validateRegularTransaction (its first part
--   is `check_transaction_form`, its loop over the inputs `check_inputs`), validateCoinbase and
--   NewCoinbase. Transaction/Size has the sizes of a coinbase.
-- Core/Coins: the UTXO and origin maps of chain.go (`Coins`), applyRegularTransaction, applyOutputs,
--   coinbase maturity and balanceFromUTXO.
-- Core/Time, Core/Difficulty, Core/Merkle, Core/Work: block.go; median time, the next timestamp, both
--   difficulty algorithms, the Merkle root, leading zero bits, header hashes and one mining worker.
--   Time/Median has the median of a list, Work/Target a hash as a number.
-- Core/Header: GenesisBlock and the validation of headers and blocks.
-- Core/Chain: `replay` of chain.go and its loops.
-- Core/State: the operations on State: Validate, Balance, Balances, AddPending, Mine and the rest.
-- Ledger/Tables: the tables of internal/ledger/schema.go and the rows of types.go; the SQL statements
--   are read as operations on lists and maps.
-- Ledger/Mempool: internal/ledger/mempool.go; AddTransaction, addMempoolTransactionWithUsage (its
--   checks are `check_admission`, its rows `insert_pending`), repopulateMempool and rebuildMempool;
--   Mempool/Steps has an induction over repopulateMempool.
-- Ledger/Apply and Ledger/Connect: internal/ledger/apply.go; in Apply the helpers on rows, in Connect
--   connectBlockAtTime (one round of its loop is `connect_transaction`) and ConnectBlock. Connect
--   validates through Core/Header and Core/Transaction, and rebuilds the mempool through Ledger/Mempool.
-- Ledger/Disconnect, Ledger/Collector, Ledger/Reorg: internal/ledger/reorg.go; disconnectTip (the part
--   after its reads is `undo_block`), the collector of disconnected transactions, and
--   replaceFromSourceAtTime, which disconnects, connects, compares the work and rebuilds the mempool.
-- Ledger/Undo: lemmas on Connect and Disconnect together.
-- Ledger/Prune: internal/ledger/prune.go. Ledger/Import: internal/ledger/import.go.
-- Ledger/Mining and Ledger/Selection: internal/ledger/mining.go; in Mining the order by fee rate, the
--   offered block (`build_mining_candidate_at_time`) and commitMinedBlockAtTime, in Selection the loop
--   that chooses transactions over miningUTXOView.
-- Entpay/Store: entpay/store.go; invoices and delivery jobs (Create, Authorized, Submit, AcquireJob,
--   FailJob, DeliverJob). `Runs` are sequences of these operations. An instant is its nanoseconds since
--   1970, and the random texts are arguments.
-- Tests: a toy hash and curve, a chain of two blocks over them, and each property at an input.
--
-- How the code is read. A uint64 is a number, kept in range by the code's own checks or by a
-- hypothesis; int64 arithmetic wraps (`wrap_int64`); a Go string is its bytes. A function that
-- returns an error returns a `Result`, whose errors are the source's messages without the values
-- they print and without the position that a caller adds. An index out of range is the error
-- `index_out_of_range`. The order in which Go ranges over a map is that of the list; sort.Slice is an
-- insertion sort. A method that changes its receiver returns the new state.
--
-- Parameters. SHA-256, the elliptic curve, ASN.1 signatures and ECDSA verification are the record
-- `Crypto`; what is assumed of SHA-256 is `CryptoLaws` (a sum is 32 bytes). Readings of the clock are
-- a function of the block's number, and `Miner` gives the clock, the random nonce and the search for
-- the nonce.
--
-- Fuel. The rounds of `merkle_loop` are the number of leaves; `decimal` prints twenty digits, enough
-- for every uint64; `mask_zeros` has the eight rounds of a byte; `mine_worker` has the rounds that its
-- caller allows. `trim` has a round for each transaction that the collector counts, and `drain_queue`
-- one for each pending transaction. container/heap is read as taking the best item: the order is total.
--
-- Not modelled: key generation and signing (random), BuildTransaction, the goroutines of
-- MineBlockWithWorkers (one worker's loop is), of internal/ledger the opening of the database, its
-- queries and histories, the hand-offs and the gateway of entpay,
-- and the packages round them. Failures of the database
-- are left out, and a database transaction that fails leaves the tables as they were (`commit`).
pub mod Base
pub mod Core
pub mod Ledger
pub mod Tests
pub mod Entpay
