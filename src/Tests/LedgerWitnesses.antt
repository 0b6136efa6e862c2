-- ===== src/Tests/LedgerWitnesses.antt =====
-- The properties of the ledger, of identifiers and of the difficulty at concrete inputs.
use entcoin.Base.{◌+◌, ◌≤◌, ◌<◌, ◌≡◌, ◌⊎◌, refl, true, [], ◌∷◌, arith, ok}
use entcoin.Base.Int.{pos}
use entcoin.Core.Model.{Transaction}
use entcoin.Core.Difficulty.{asert_difficulty, expected_difficulty}
use entcoin.Core.Time.{last_block}
use entcoin.Core.Difficulty.Bounds.{InLimits, asert_difficulty_bounds, expected_difficulty_bounds}
use entcoin.Core.Transaction.{compute_id, encode_transaction}
use entcoin.Core.Transaction.Identity.{TransactionFits, SameContent, Collide, compute_id-injective}
use entcoin.Ledger.Mempool.{add_transaction}
use entcoin.Ledger.Mempool.Budget.{
  Bounded, rebuild_mempool-Bounded, add_transaction-Bounded, empty-Bounded,
}
use entcoin.Ledger.Tables.{Tip, tip_from_query, block_work}
use entcoin.Ledger.Connect.Tip.{connect_block_at_time-tip}
use entcoin.Tests.Toy.{
  clock, connected_tables, connected_tables-accepted, genesis_tip, funded_tables-tip, toy, toy_laws,
  payment, unsigned_payment, genesis, funded_tables, rebuilt_tables, rebuilt_tables-accepted,
  first_block, first_block-difficulty, alice-length,
}

asert_difficulty_bounds_example : InLimits (asert_difficulty 200_000 (pos 1_900_000_000))
asert_difficulty_bounds_example = asert_difficulty_bounds 200_000 (pos 1_900_000_000)

last_is_first : last_block (genesis ∷ first_block ∷ []) ≡ ok first_block
unfolding last_block
last_is_first = refl

second_expected : expected_difficulty (genesis ∷ first_block ∷ []) 2 ≡ ok first_block.difficulty
unfolding expected_difficulty
second_expected = refl

first_limits : InLimits first_block.difficulty
first_limits = omega (arith, first_block-difficulty)

expected_difficulty_bounds_example :
    InLimits first_block.difficulty
    × (first_block.difficulty ≤ first_block.difficulty + 2)
    × (first_block.difficulty ≤ first_block.difficulty + 2)
expected_difficulty_bounds_example =
    expected_difficulty_bounds (genesis ∷ first_block ∷ []) 2 first_block refl last_is_first
      first_limits second_expected

-- the same payment under another identifier
abbrev renamed_payment : Transaction
renamed_payment = record unsigned_payment { id = b'x' ∷ [] }

unsigned_fits : TransactionFits unsigned_payment
unsigned_fits = record {
  nonce_fits = omega arith;
  inputs_count = omega arith;
  outputs_count = omega arith;
  inputs_fit = (
    record {
      tx_id_fits = omega arith;
      index_fits = omega arith;
      key_fits = omega arith;
      signature_fits = omega arith;
    },
    tt,
  );
  outputs_fit = (record { amount_fits = omega arith; address_fits = alice-length }, tt);
}

renamed_fits : TransactionFits renamed_payment
renamed_fits = record {
  nonce_fits = unsigned_fits.nonce_fits;
  inputs_count = unsigned_fits.inputs_count;
  outputs_count = unsigned_fits.outputs_count;
  inputs_fit = unsigned_fits.inputs_fit;
  outputs_fit = unsigned_fits.outputs_fit;
}

same_id : compute_id ⦃c = toy⦄ unsigned_payment ≡ compute_id ⦃c = toy⦄ renamed_payment
unfolding compute_id
same_id = refl

compute_id-injective_example :
    SameContent unsigned_payment renamed_payment
    ⊎ Collide toy
        (encode_transaction unsigned_payment true)
        (encode_transaction renamed_payment true)
compute_id-injective_example =
    compute_id-injective ⦃c = toy⦄ toy_laws unsigned_payment renamed_payment unsigned_fits
      renamed_fits same_id

rebuild_mempool-Bounded_example : Bounded ⦃c = toy⦄ rebuilt_tables
rebuild_mempool-Bounded_example =
    rebuild_mempool-Bounded ⦃c = toy⦄ funded_tables (payment ∷ []) (pos 7) rebuilt_tables-accepted

add_transaction-Bounded_example :
    Bounded ⦃c = toy⦄ (add_transaction ⦃c = toy⦄ funded_tables payment (pos 7)).1
add_transaction-Bounded_example =
    add_transaction-Bounded ⦃c = toy⦄ funded_tables payment (pos 7)
      (empty-Bounded ⦃c = toy⦄ funded_tables)

connect_block_at_time-tip_example :
    (tip' : Tip) × (tip_from_query connected_tables ≡ ok tip')
    × (tip'.height ≡ first_block.height)
    × (tip'.hash ≡ first_block.hash)
    × (tip'.work ≡ genesis_tip.work + block_work first_block.difficulty)
    × (genesis_tip.work < tip'.work)
connect_block_at_time-tip_example =
    connect_block_at_time-tip ⦃c = toy⦄ funded_tables first_block (clock 1) genesis_tip
      funded_tables-tip connected_tables-accepted
