-- ===== src/Tests/ChainWitnesses.antt =====
-- The properties of changes of the chain, of the offered block and of pruning at concrete inputs.
use entcoin.Base.{false, ℕ, ◌+◌, ◌≡◌, ◌↔◌, true, some, List, [], ◌∷◌, ◌++◌, arith, ok}
use entcoin.Base.Int.{pos}
use entcoin.Core.Model.{Transaction}
use entcoin.Ledger.Tables.{TransactionRow, Tables, BlockRow}
use entcoin.Ledger.Collector.{Collector, new_collector, total_size, collect, orphaned_transactions}
use entcoin.Ledger.Collector.Trimming.{Counted, FitsBudget, IsLongest, new_collector-Counted}
use entcoin.Ledger.Collector.Fit.{collect-LongestFit}
use entcoin.Ledger.Reorg.{replace_from_source_at_time}
use entcoin.Ledger.Reorg.Work.{WorkOutcome, replace_from_source_at_time-WorkOutcome}
use entcoin.Ledger.Undo.RoundTrip.{Undone, connect_block_at_time-Undone}
use entcoin.Ledger.Mining.{MiningItem, higher_mining_priority, commit_mined_block_at_time}
use entcoin.Ledger.Mining.Priority.{GoesBefore, higher_mining_priority_iff}
use entcoin.Ledger.Mining.Candidate.{Candidate, build_mining_candidate_at_time-Candidate}
use entcoin.Ledger.Mining.Commit.{CommitOutcome, commit_mined_block_at_time-CommitOutcome}
use entcoin.Tests.Toy.{toy, clock, payment, alice, first_block, funded_tables, genesis_tip}
use entcoin.Tests.ToyChain.{
  pending_tables, pending_tables-IsUnique, pending_tables-IsIndexed, pending_tables-IsStored, offer,
  offer-built, extended_tables, extended_tables-accepted,
}

replace_from_source_at_time-WorkOutcome_example : WorkOutcome ⦃c = toy⦄ pending_tables (
    replace_from_source_at_time ⦃c = toy⦄ pending_tables 0 1
      (λ index. ok first_block)
      (clock 1)
      (pos 7))
replace_from_source_at_time-WorkOutcome_example =
    replace_from_source_at_time-WorkOutcome ⦃c = toy⦄ pending_tables 0 1 (λ index. ok first_block)
      (clock 1) (pos 7)

connect_block_at_time-Undone_example : Undone ⦃c = toy⦄ pending_tables offer.0 extended_tables
connect_block_at_time-Undone_example =
    connect_block_at_time-Undone ⦃c = toy⦄ pending_tables offer.0 (clock 1) pending_tables-IsIndexed
      pending_tables-IsUnique pending_tables-IsStored extended_tables-accepted

build_mining_candidate_at_time-Candidate_example :
    Candidate ⦃c = toy⦄ pending_tables offer.0 offer.1
build_mining_candidate_at_time-Candidate_example =
    build_mining_candidate_at_time-Candidate ⦃c = toy⦄ pending_tables alice (clock 1) (ok 4) (ok 5)
      offer-built

commit_mined_block_at_time-CommitOutcome_example :
    CommitOutcome ⦃c = toy⦄ pending_tables offer.0 genesis_tip
      (commit_mined_block_at_time ⦃c = toy⦄ pending_tables offer.0 genesis_tip (clock 1) (pos 7))
commit_mined_block_at_time-CommitOutcome_example =
    commit_mined_block_at_time-CommitOutcome ⦃c = toy⦄ pending_tables offer.0 genesis_tip (clock 1)
      (pos 7)

-- Three payments are disconnected, and there is room for two.
abbrev two_places : Collector
two_places = record { blocks = []; count = 0; bytes = 0; max_count = 2; max_bytes = 10_000 }

abbrev three_payments : List Transaction
three_payments = payment ∷ payment ∷ payment ∷ []

two_places-Counted : Counted two_places
unfolding new_collector
two_places-Counted = new_collector-Counted 2 10_000

two_places-FitsBudget : FitsBudget 2 10_000 (orphaned_transactions two_places)
unfolding orphaned_transactions total_size
two_places-FitsBudget = omega arith

collect-LongestFit_example :
    Counted (collect two_places three_payments)
    × FitsBudget 2 10_000 (orphaned_transactions (collect two_places three_payments))
    × IsLongest 2 10_000
        (orphaned_transactions (collect two_places three_payments))
        (three_payments ++ orphaned_transactions two_places)
collect-LongestFit_example =
    collect-LongestFit two_places three_payments two_places-Counted two_places-FitsBudget
      (omega arith) (omega arith)

-- Blocks of the heights 0, 1 and 2.
abbrev row_at : ℕ → BlockRow
row_at height = record {
  header = record first_block { height = height };
  cumulative_work = height + 1;
  body = some (record first_block { height = height });
}

abbrev mined_at : ℕ → TransactionRow
mined_at height = record {
  id = height ∷ [];
  block_height = height;
  tx_index = 0;
  coinbase = false;
  body = some payment;
}

abbrev tall_tables : Tables
tall_tables = record funded_tables {
  blocks = row_at 0 ∷ row_at 1 ∷ row_at 2 ∷ [];
  transactions = mined_at 1 ∷ mined_at 2 ∷ [];
}

abbrev item_of : ℕ → ℕ → MiningItem
item_of fee sequence = record {
  transaction = payment;
  fee = fee;
  encoded_size = 250;
  sequence = sequence;
}

higher_mining_priority_iff_example :
    (higher_mining_priority (item_of 70 1) (item_of 70 2) ≡ true)
    ↔ GoesBefore (item_of 70 1) (item_of 70 2)
higher_mining_priority_iff_example = higher_mining_priority_iff (item_of 70 1) (item_of 70 2)
