-- ===== src/Tests/ToyChain.antt =====
-- Tables at which the ledger's changes of the chain run: a candidate with a payment, connected and undone.
use entcoin.Base.{
  ◌≡◌, refl, sym, ap, ◌∙◌, subst, false, none, some, [], ◌∷◌, arith, Result, ok, err, Bool-cases,
  inl, inr, length, bytes_eq_iff, ◌||◌,
}
use entcoin.Base.Int.{pos}
use entcoin.Base.Map.{get, IsUnique}
use entcoin.Core.Model.{Outpoint, outpoint_eq, outpoint_eq_iff, outpoint_Eq, Block}
use entcoin.Core.Encoding.{enc_uint32}
use entcoin.Core.Address.{validate_address, address_from_public_key}
use entcoin.Core.Transaction.{compute_id, outpoint_of}
use entcoin.Core.Header.{genesis_block}
use entcoin.Ledger.Tables.{Tables, Tip, UtxoRow, TransactionRow, exists_row, tip_from_query}
use entcoin.Ledger.Mempool.{rebuild_mempool}
use entcoin.Ledger.Connect.{connect_block_at_time}
use entcoin.Ledger.Mining.{build_mining_candidate_at_time}
use entcoin.Ledger.Undo.Block.{IsIndexed, has_id}
use entcoin.Ledger.Undo.{true-false}
use entcoin.Ledger.Undo.Restore.{IsStored}
use entcoin.Tests.Toy.{
  toy, toy_sum, clock, spent_input, payment, key_address, alice, genesis, funded_tables,
  genesis_tip,
}

abbrev funding : TransactionRow
funding = record {
  id = spent_input.tx_id;
  block_height = 0;
  tx_index = 0;
  coinbase = false;
  body = none;
}

abbrev pub funded_row : UtxoRow
funded_row = record {
  amount = 100_000;
  address = key_address;
  created_height = 0;
  coinbase = false;
}

abbrev or_funded : Result Tables → Tables
or_funded (ok tables) = tables
or_funded (err e) = funded_tables

-- The payment is pending.
abbrev pub pending_tables : Tables
unfolding rebuild_mempool compute_id address_from_public_key toy_sum enc_uint32
pending_tables =
    or_funded (
      rebuild_mempool (record funded_tables { transactions = funding ∷ [] }) (payment ∷ []) (pos 7))

abbrev or_offer : Result (Block × Tip) → Block × Tip
or_offer (ok offer) = offer
or_offer (err e) = (genesis, genesis_tip)

abbrev pub offer : Block × Tip
unfolding build_mining_candidate_at_time pending_tables compute_id address_from_public_key toy_sum
    enc_uint32 genesis_block
offer = or_offer (build_mining_candidate_at_time pending_tables alice (clock 1) (ok 4) (ok 5))

pub offer-built :
    build_mining_candidate_at_time pending_tables alice (clock 1) (ok 4) (ok 5) ≡ ok offer
unfolding build_mining_candidate_at_time pending_tables compute_id address_from_public_key toy_sum
    enc_uint32 genesis_block offer
offer-built = refl

abbrev or_pending : Result Tables → Tables
or_pending (ok tables) = tables
or_pending (err e) = pending_tables

abbrev pub extended_tables : Tables
unfolding connect_block_at_time offer pending_tables compute_id address_from_public_key toy_sum
    enc_uint32 genesis_block
extended_tables = or_pending (connect_block_at_time pending_tables offer.0 (clock 1))

pub extended_tables-accepted :
    connect_block_at_time pending_tables offer.0 (clock 1) ≡ ok extended_tables
unfolding connect_block_at_time offer pending_tables compute_id address_from_public_key toy_sum
    enc_uint32 genesis_block
extended_tables-accepted = refl

pub offer-length : length offer.0.transactions ≡ 2
unfolding offer build_mining_candidate_at_time pending_tables compute_id address_from_public_key
    toy_sum enc_uint32 genesis_block
offer-length = refl

pub pending_tables-tip : tip_from_query pending_tables ≡ ok genesis_tip
unfolding tip_from_query pending_tables rebuild_mempool compute_id address_from_public_key toy_sum
    enc_uint32 genesis_block
pending_tables-tip = refl

pub pending_tables-utxos : pending_tables.utxos ≡ (outpoint_of spent_input, funded_row) ∷ []
unfolding pending_tables rebuild_mempool compute_id address_from_public_key toy_sum enc_uint32
    genesis_block
pending_tables-utxos = refl

pending_tables-transactions : pending_tables.transactions ≡ funding ∷ []
unfolding pending_tables rebuild_mempool compute_id address_from_public_key toy_sum enc_uint32
    genesis_block
pending_tables-transactions = refl

pub pending_tables-IsUnique : IsUnique pending_tables.utxos
unfolding IsUnique
pending_tables-IsUnique = subst IsUnique (sym pending_tables-utxos) (refl, tt)

key_address-valid : validate_address key_address ≡ ok tt
unfolding validate_address address_from_public_key toy_sum enc_uint32
key_address-valid = refl

funded_row-IsStored : IsStored funded_row
funded_row-IsStored = record {
  amount_positive = omega arith;
  amount_fits = omega arith;
  height_fits = omega arith;
  address_valid = key_address-valid;
}

none-some : (row : UtxoRow) → none ≡ some row → ⊥
none-some row e = cc e

some_same : (row v : UtxoRow) → some row ≡ some v → row ≡ v
some_same row v e = cc e

get_single : (k j : Outpoint) (v row : UtxoRow) → get k ((j, v) ∷ []) ≡ some row → row ≡ v
unfolding get
get_single k j v row e = elim (Bool-cases (outpoint_eq k j)) [
  | inl same ↦ some_same row v (sym e ∙ (rw same refl))
  | inr other ↦ absurd (none-some row ((rw other refl) ∙ e))
]

pub pending_tables-IsStored :
    (k : Outpoint) (row : UtxoRow) → get k pending_tables.utxos ≡ some row → IsStored row
pending_tables-IsStored k row e =
    subst IsStored
      (sym (
        get_single k (outpoint_of spent_input) funded_row row
          (sym (ap (get k) pending_tables-utxos) ∙ e)))
      funded_row-IsStored

single_indexed :
    (k : Outpoint) (v : UtxoRow)
    → exists_row (has_id k.tx_id) (funding ∷ []) ≡ false
    → get k ((outpoint_of spent_input, v) ∷ []) ≡ none
unfolding exists_row get
single_indexed k v h = elim (Bool-cases (outpoint_eq k (outpoint_of spent_input))) [
  | inr other ↦ rw other refl
  | inl same ↦
      let id = sym (ap (λ o. o.tx_id) ((outpoint_eq_iff k (outpoint_of spent_input)).0 same)) in
      let found = (bytes_eq_iff spent_input.tx_id k.tx_id).1 id in
      absurd (true-false (sym (ap (λ b. b || false) found) ∙ h))
]

pub pending_tables-IsIndexed : IsIndexed pending_tables
pending_tables-IsIndexed k h =
    ap (get k) pending_tables-utxos
    ∙ single_indexed k funded_row
        (sym (ap (exists_row (has_id k.tx_id)) pending_tables-transactions) ∙ h)
