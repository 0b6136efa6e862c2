-- ===== src/Ledger/Mempool/Usage.antt =====
-- The usage that the mempool tables of internal/ledger/mempool.go hold, and how one admitted
-- transaction moves it.
use entcoin.Base.{
  ℕ, ◌+◌, ◌≤◌, ◌≡◌, refl, ap, List, [], ◌∷◌, ◌++◌, length, arith, Bytes, ok, ◌||◌, eqb, leb,
  >>=-eq-ok, fail_if-eq-ok, fail_if_ok, length-append, subst, ok_injective, constraint,
}
use entcoin.Base.Int.{ℤ, pos, sub_ℕ, ltb_ℤ}
use entcoin.Base.Map.{Map, contains}
use entcoin.Core.Model.{
  TxInput, TxOutput, Transaction, Outpoint, outpoint_Eq, max_pending_transactions,
}
use entcoin.Core.Transaction.{encoded_size, outpoint_of}
use entcoin.Ledger.Tables.{Tables, MempoolRow, insert_row, exists_row}
use entcoin.Ledger.Mempool.{
  ResourceUsage, max_mempool_bytes, max_mempool_inputs, sum_sizes, row_of,
  read_mempool_resource_usage, validate_mempool_resource_budget, insert_mempool_inputs,
  insert_mempool_outputs, insert_pending,
}

-- The limits, on a usage.
pub record InBudget (usage : ResourceUsage) : Type 0 where
  pub count_bound : usage.count ≤ max_pending_transactions
  pub bytes_bound : usage.bytes ≤ max_mempool_bytes
  pub inputs_bound : usage.inputs ≤ max_mempool_inputs

-- The usage is the one that the tables hold, and within the limits.
abbrev pub Accounted : Tables → ResourceUsage → Type 0
Accounted tables usage = (usage ≡ read_mempool_resource_usage tables) × InBudget usage

pub budget_ok :
    (usage : ResourceUsage) (size inputs : ℕ)
    → validate_mempool_resource_budget usage size inputs ≡ ok tt
    → (usage.count + 1 ≤ max_pending_transactions)
      × (usage.bytes + size ≤ max_mempool_bytes)
      × (usage.inputs + inputs ≤ max_mempool_inputs)
unfolding validate_mempool_resource_budget
budget_ok usage size inputs h =
    let (_, h₁) = fail_if-eq-ok (eqb size 0 || eqb inputs 0) _ _ h in
    let (count, h₂) = fail_if-eq-ok (leb max_pending_transactions usage.count) _ _ h₁ in
    let (bytes, h₃) =
      fail_if-eq-ok (ltb_ℤ (sub_ℕ max_mempool_bytes usage.bytes) (pos size)) _ _ h₂ in
    let items = fail_if_ok (ltb_ℤ (sub_ℕ max_mempool_inputs usage.inputs) (pos inputs)) _ h₃ in
    ground (arith, count, bytes, items)

sum_sizes-append : (xs ys : List MempoolRow) → sum_sizes (xs ++ ys) ≡ sum_sizes xs + sum_sizes ys
unfolding sum_sizes
sum_sizes-append [] ys = omega arith
sum_sizes-append (x ∷ xs) ys = omega (arith, sum_sizes-append xs ys)

insert_row-length :
    (key : Outpoint) (row : Bytes) (table : Map Outpoint Bytes) {table' : Map Outpoint Bytes}
    → insert_row key row table ≡ ok table'
    → length table' ≡ length table + 1
unfolding insert_row
insert_row-length key row table e =
    let (_, e') = fail_if-eq-ok (contains key table) constraint _ e in ground (arith, e')

insert_mempool_inputs-length :
    (tx_id : Bytes) (inputs : List TxInput) (table : Map Outpoint Bytes)
    {table' : Map Outpoint Bytes}
    → insert_mempool_inputs tx_id inputs table ≡ ok table'
    → length table' ≡ length table + length inputs
unfolding insert_mempool_inputs
insert_mempool_inputs-length tx_id [] table e = ground (arith, e)
insert_mempool_inputs-length tx_id (input ∷ rest) table e =
    let (next, first, e') = >>=-eq-ok (insert_row (outpoint_of input) tx_id table) _ e in
    omega (
      arith,
      insert_row-length (outpoint_of input) tx_id table first,
      insert_mempool_inputs-length tx_id rest next e',
    )

-- The usage of the tables after `tx` came in, from `usage`.
abbrev Grown : ResourceUsage → Transaction → Tables × ResourceUsage → Type 0
Grown usage tx result =
    (result.1 ≡ read_mempool_resource_usage result.0)
    × (result.1.count ≡ usage.count + 1)
    × (result.1.bytes ≡ usage.bytes + encoded_size tx)
    × (result.1.inputs ≡ usage.inputs + length tx.inputs)

abbrev grown_tables : Tables → MempoolRow → Map Outpoint Bytes → Map Outpoint TxOutput → Tables
grown_tables tables row inputs outputs = record tables {
  mempool = tables.mempool ++ (row ∷ []);
  mempool_inputs = inputs;
  mempool_outputs = outputs;
}

abbrev grown_usage : ResourceUsage → ℕ → ℕ → ResourceUsage
grown_usage usage size inputs = record {
  count = usage.count + 1;
  bytes = usage.bytes + size;
  inputs = usage.inputs + inputs;
}

usage_eq :
    (u v : ResourceUsage) → u.count ≡ v.count → u.bytes ≡ v.bytes → u.inputs ≡ v.inputs → u ≡ v
usage_eq u v a b c = cc (a, b, c)

grown :
    (tables : Tables) (row : MempoolRow) (usage : ResourceUsage) (items : ℕ)
    (inputs : Map Outpoint Bytes) (outputs : Map Outpoint TxOutput)
    → usage ≡ read_mempool_resource_usage tables
    → length inputs ≡ length tables.mempool_inputs + items
    → grown_usage usage row.encoded_size items
      ≡ read_mempool_resource_usage (grown_tables tables row inputs outputs)
unfolding read_mempool_resource_usage sum_sizes
grown tables row usage items inputs outputs same more =
    usage_eq _ _ (omega (arith, ap (λ u. u.count) same, length-append tables.mempool (row ∷ [])))
      (omega (arith, ap (λ u. u.bytes) same, sum_sizes-append tables.mempool (row ∷ [])))
      (omega (arith, ap (λ u. u.inputs) same, more))

pub insert_pending-Grown :
    (tables : Tables) (tx : Transaction) (first_seen : ℤ) (fee : ℕ) (usage : ResourceUsage)
    {result : Tables × ResourceUsage}
    → usage ≡ read_mempool_resource_usage tables
    → insert_pending tables tx first_seen fee usage ≡ ok result
    → Grown usage tx result
unfolding insert_pending
insert_pending-Grown tables tx first_seen fee usage same e =
    let (_, e₁) = fail_if-eq-ok (exists_row _ tables.mempool) constraint _ e in
    let (inputs, i, e₂) =
      >>=-eq-ok (insert_mempool_inputs tx.id tx.inputs tables.mempool_inputs) _ e₁ in
    let (outputs, o, e₃) =
      >>=-eq-ok (insert_mempool_outputs tx.id 0 tx.outputs tables.mempool_outputs) _ e₂ in
    let more = insert_mempool_inputs-length tx.id tx.inputs tables.mempool_inputs i in
    subst (Grown usage tx) (ok_injective e₃) (
      grown tables (row_of tx first_seen fee) usage (length tx.inputs) inputs outputs same more,
      refl,
      refl,
      refl,
    )
