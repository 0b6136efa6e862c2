-- ===== src/Ledger/Collector.antt =====
-- internal/ledger/reorg.go: orphanedMempoolCollector, which keeps the transactions of disconnected
-- blocks within a budget.
pub mod Trimming
pub mod Fit
use entcoin.Base.{
  ℕ, zero, suc, ◌+◌, ◌-◌, Bool, true, false, ◌||◌, List, [], ◌∷◌, ◌++◌, length, ltb, eqb,
  if◌then◌else◌,
}
use entcoin.Core.Model.{Transaction}
use entcoin.Core.Transaction.{encoded_size}

-- `blocks` are those from the index `start` on: the ones before it are empty.
pub record Collector : Type 0 where
  pub blocks : List (List Transaction)
  pub count : ℕ
  pub bytes : ℕ
  pub max_count : ℕ
  pub max_bytes : ℕ

unfoldable pub new_collector : ℕ → ℕ → Collector
new_collector max_count max_bytes = record {
  blocks = [];
  count = 0;
  bytes = 0;
  max_count = max_count;
  max_bytes = max_bytes;
}

unfoldable pub total_size : List Transaction → ℕ
total_size [] = 0
total_size (transaction ∷ rest) = encoded_size transaction + total_size rest

-- `block[:last]` and `block[last]` of a block that is not empty
unfoldable pub split_last : Transaction → List Transaction → List Transaction × Transaction
split_last first [] = ([], first)
split_last first (next ∷ rest) = let (front, last) = split_last next rest in (first ∷ front, last)

abbrev pub put_front : List Transaction → List (List Transaction) → List (List Transaction)
put_front [] rest = rest
put_front (transaction ∷ front) rest = (transaction ∷ front) ∷ rest

abbrev pub is_over : Collector → Bool
is_over c = ltb c.max_count c.count || ltb c.max_bytes c.bytes

-- the newest transaction goes
unfoldable pub drop_newest :
    Collector → List Transaction × Transaction → List (List Transaction) → Collector
unfolding encoded_size
drop_newest c (front, transaction) rest = record c {
  blocks = put_front front rest;
  count = c.count - 1;
  bytes = c.bytes - encoded_size transaction;
}

abbrev pub newest_block : Collector → List (List Transaction) → Collector
unfolding drop_newest split_last
newest_block c [] = c
newest_block c ([] ∷ rest) = record c { blocks = rest }
newest_block c ((first ∷ more) ∷ rest) = drop_newest c (split_last first more) rest

-- The loop ends when no transaction is left, so `count` rounds are enough.
unfoldable pub trim : ℕ → Collector → Collector
unfolding newest_block
trim zero c = c
trim (suc rounds) c = elim (is_over c) [ true ↦ trim rounds (newest_block c c.blocks) | false ↦ c ]

abbrev pub snoc : List (List Transaction) → List Transaction → List (List Transaction)
snoc blocks transactions = blocks ++ transactions ∷ []

abbrev added : Collector → List Transaction → Collector
unfolding total_size
added c transactions = record c {
  blocks = snoc c.blocks transactions;
  count = c.count + length transactions;
  bytes = c.bytes + total_size transactions;
}

-- `add`
unfoldable pub collect : Collector → List Transaction → Collector
unfolding trim added
collect c transactions =
    if eqb (length transactions) 0 || (eqb c.max_count 0 || eqb c.max_bytes 0)
    then c
    else trim (c.count + length transactions) (added c transactions)

-- `transactions`: the oldest block first
unfoldable pub orphaned_from : List (List Transaction) → List Transaction
orphaned_from [] = []
orphaned_from (block ∷ rest) = orphaned_from rest ++ block

unfoldable pub orphaned_transactions : Collector → List Transaction
unfolding orphaned_from
orphaned_transactions c = orphaned_from c.blocks
