-- ===== src/Tests/Witnesses.antt =====
-- The properties of the consensus core at concrete inputs, over the toy hash.
use entcoin.Base.{
  ℕ, ◌+◌, ◌-◌, ◌≤◌, ◌≡◌, ◌↔◌, ◌⊎◌, true, false, [], ◌∷◌, Bytes, length, drop, arith, ok, err, Error,
}
use entcoin.Core.Model.{max_uint64}
use entcoin.Core.Amount.{max_supply, emission_blocks, minted_through, safe_add}
use entcoin.Core.Amount.Supply.{issued, minted_through-issued, minted_through_bounds, safe_add_iff}
use entcoin.Core.Amount.Decimal.{parse_amount, format_amount}
use entcoin.Core.Amount.RoundTrip.{parse_amount-format_amount}
use entcoin.Core.Encoding.{hex_encode, hex_decode}
use entcoin.Core.Encoding.Hex.{hex_decode-hex_encode}
use entcoin.Core.Address.{equal_bytes, address_from_public_key, validate_address, addresses_equal}
use entcoin.Core.Address.Bits.{equal_bytes_iff}
use entcoin.Core.Address.Laws.{addresses_equal_iff, validate_address-address_from_public_key}
use entcoin.Core.Coins.Value.{value}
use entcoin.Core.Coins.Spend.{apply_regular_transaction-value}
use entcoin.Core.Header.{validate_header_consensus_fields}
use entcoin.Core.Header.Laws.{FieldsHold, validate_header_consensus_fields_iff}
use entcoin.Core.Header.Body.{BlockHolds, validate_block_header-BlockHolds}
use entcoin.Core.Chain.Conservation.{replay-value}
use entcoin.Core.State.{balance, validate, add_pending}
use entcoin.Core.State.Funds.{balance_total}
use entcoin.Core.State.Accepting.{added, add_pending_outcome}
use entcoin.Tests.Toy.{
  toy, toy_laws, alice, clock, two_blocks, two_blocks_replay, two_blocks-accepted,
  two_blocks-length, key, payment, funded, paid, payment-accepted, payment-applied,
  two_blocks-alice, genesis, first_block, first_block-accepted, first_block-timestamp,
}

replay-value_example :
    value two_blocks_replay.coins.utxo ≡ minted_through (length two_blocks.blocks - 1)
replay-value_example =
    replay-value ⦃c = toy⦄ clock two_blocks two_blocks_replay (omega (arith, two_blocks-length))
      two_blocks-accepted

balance_total_example :
    (n : ℕ) × (balance ⦃c = toy⦄ clock two_blocks alice false ≡ ok n)
    × (n ≤ minted_through (length two_blocks.blocks - 1))
balance_total_example =
    balance_total ⦃c = toy⦄ clock two_blocks alice false two_blocks_replay
      (omega (arith, two_blocks-length)) two_blocks-alice two_blocks-accepted

add_pending_outcome_example :
    (((add_pending ⦃c = toy⦄ clock two_blocks payment).0 ≡ ok tt)
      × ((add_pending ⦃c = toy⦄ clock two_blocks payment).1
          ≡ added ⦃c = toy⦄ clock two_blocks payment)
      × (validate ⦃c = toy⦄ clock (add_pending ⦃c = toy⦄ clock two_blocks payment).1 ≡ ok tt))
    ⊎ ((e : Error) × (add_pending ⦃c = toy⦄ clock two_blocks payment ≡ (err e, two_blocks)))
add_pending_outcome_example = add_pending_outcome ⦃c = toy⦄ clock two_blocks payment

apply_regular_transaction-value_example : value paid.utxo + 10 ≡ value funded.utxo
apply_regular_transaction-value_example =
    apply_regular_transaction-value ⦃c = toy⦄ payment funded 5 10 payment-accepted payment-applied

minted_through-issued_example : minted_through 40_000_000 ≡ issued 40_000_000
minted_through-issued_example = minted_through-issued 40_000_000

minted_through_bounds_example :
    (minted_through 31_536_000 ≤ max_supply)
    × ((minted_through 31_536_000 ≡ max_supply) ↔ (emission_blocks ≤ 31_536_000))
minted_through_bounds_example = minted_through_bounds 31_536_000

safe_add_iff_example : (safe_add 18_446_744_073_709_551_615 1 ≡ ok 0) ↔ (
    (◌≡◌ {A = ℕ} 0 (18_446_744_073_709_551_615 + 1))
    × (18_446_744_073_709_551_615 + 1 ≤ max_uint64))
safe_add_iff_example = safe_add_iff 18_446_744_073_709_551_615 1 0 (omega arith)

parse_amount-format_amount_example : parse_amount (format_amount 1_205_000_001) ≡ ok 1_205_000_001
parse_amount-format_amount_example = parse_amount-format_amount 1_205_000_001 (omega arith)

hex_decode-hex_encode_example : hex_decode (hex_encode (0 ∷ 171 ∷ [])) ≡ ok (0 ∷ 171 ∷ [])
hex_decode-hex_encode_example = hex_decode-hex_encode (0 ∷ 171 ∷ []) (omega arith)

equal_bytes_iff_example :
    (equal_bytes (1 ∷ 2 ∷ []) (1 ∷ 3 ∷ []) ≡ true) ↔ (◌≡◌ {A = Bytes} (1 ∷ 2 ∷ []) (1 ∷ 3 ∷ []))
equal_bytes_iff_example = equal_bytes_iff (1 ∷ 2 ∷ []) (1 ∷ 3 ∷ []) (omega arith) (omega arith)

addresses_equal_iff_example : (addresses_equal ⦃c = toy⦄ alice alice ≡ true) ↔ (
    (validate_address ⦃c = toy⦄ alice ≡ ok tt)
    × (validate_address ⦃c = toy⦄ alice ≡ ok tt)
    × (hex_decode (drop 4 alice) ≡ hex_decode (drop 4 alice)))
addresses_equal_iff_example = addresses_equal_iff ⦃c = toy⦄ alice alice

validate_address-address_from_public_key_example :
    validate_address ⦃c = toy⦄ (address_from_public_key ⦃c = toy⦄ key) ≡ ok tt
validate_address-address_from_public_key_example =
    validate_address-address_from_public_key ⦃c = toy⦄ toy_laws key

validate_header_consensus_fields_iff_example :
    (validate_header_consensus_fields first_block genesis (genesis ∷ []) (clock 1) ≡ ok tt)
    ↔ FieldsHold first_block genesis (genesis ∷ []) (clock 1)
validate_header_consensus_fields_iff_example =
    validate_header_consensus_fields_iff first_block genesis (genesis ∷ []) (clock 1)
      first_block-timestamp

validate_block_header-BlockHolds_example :
    BlockHolds ⦃c = toy⦄ first_block genesis (genesis ∷ []) (clock 1)
validate_block_header-BlockHolds_example =
    validate_block_header-BlockHolds ⦃c = toy⦄ first_block genesis (genesis ∷ []) (clock 1)
      first_block-accepted
