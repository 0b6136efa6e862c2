-- ===== src/Core/State/Funds.antt =====
-- Balances of internal/core/chain.go: on an accepted chain they never overflow and never exceed
-- what was minted.
use entcoin.Base.{
  ℕ, ◌+◌, ◌-◌, ◌^◌, ◌≤◌, ◌≡◌, refl, ap, ◌∙◌, Bool, true, false, List, [], ◌∷◌, Bytes, length, ltb,
  Result, ok, ◌>>=◌, ◌>>◌, >>=-eq-ok, fail_if-eq-ok, >>-eq-ok, arith, Bool-cases, inl, inr,
  pending_limit, pending_duplicate, if◌then◌else◌, bytes_Eq,
}
use entcoin.Base.Int.{ℤ}
use entcoin.Base.Map.{Map, get, put, contains}
use entcoin.Core.Model.{
  max_uint64, max_pending_transactions, Transaction, State, Outpoint, outpoint_Eq, Utxo,
}
use entcoin.Core.Amount.{minted_through}
use entcoin.Core.Amount.Supply.{minted_through_bounds, safe_add_fits}
use entcoin.Core.Encoding.{Crypto}
use entcoin.Core.Address.{validate_address, addresses_equal}
use entcoin.Core.Transaction.{validate_regular_transaction}
use entcoin.Core.Coins.{
  Coins, OutputOrigin, apply_regular_transaction, validate_coinbase_maturity, held_back,
  mature_utxo, balance_loop, balance_from_utxo,
}
use entcoin.Core.Coins.Value.{value}
use entcoin.Core.Coins.Spend.{apply_regular_transaction-value}
use entcoin.Core.Chain.{
  Replay, apply_transaction, apply_pending, replay, replay_pending, next_height,
}
use entcoin.Core.Chain.Conservation.{replay-ok, replay-value}
use entcoin.Core.State.{balance}

mature_utxo-value :
    (utxo : Utxo) (origins : Map Outpoint OutputOrigin) (height : ℕ)
    → value (mature_utxo utxo origins height) ≤ value utxo
unfolding value mature_utxo
mature_utxo-value [] origins height = omega arith
mature_utxo-value ((outpoint, output) ∷ utxo) origins height =
    elim (Bool-cases (held_back (get outpoint origins) height)) [
      | inl held ↦ rw held (omega (arith, mature_utxo-value utxo origins height))
      | inr free ↦ rw free (omega (arith, mature_utxo-value utxo origins height))
    ]

module _ ⦃c : Crypto⦄ where
  -- Where all the money fits a uint64 the sum over one address does not overflow.
  balance_loop_fits :
      (address : Bytes) (total : ℕ) (utxo : Utxo)
      → total + value utxo ≤ max_uint64
      → (n : ℕ) × (balance_loop address total utxo ≡ ok n) × (n ≤ total + value utxo)
  unfolding balance_loop value
  balance_loop_fits address total [] b = (total, refl, omega arith)
  balance_loop_fits address total ((outpoint, output) ∷ utxo) b =
      elim (Bool-cases (addresses_equal output.address address)) [
        | inl mine ↦
            let (n, sum, bound) =
              balance_loop_fits address (total + output.amount) utxo (omega arith) in
            (n, rw (mine, safe_add_fits total output.amount (omega arith)) sum, omega arith)
        | inr other ↦
            let (n, sum, bound) = balance_loop_fits address total utxo (omega arith) in
            (n, rw other sum, omega arith)
      ]

  abbrev keep : Transaction → Replay → ℕ → Coins → Result (ℕ × Replay)
  keep tx r fee coins = ok (fee, record { coins = coins; seen = put tx.id tt r.seen })

  -- A pending transaction only takes its fee away.
  apply_transaction-value :
      (tx : Transaction) (height : ℕ) (r : Replay) (out : ℕ × Replay)
      → apply_transaction tx height r ≡ ok out
      → value out.1.coins.utxo ≤ value r.coins.utxo
  unfolding apply_transaction
  apply_transaction-value tx height r out h =
      let k₂ = λ (fee : ℕ). apply_regular_transaction tx r.coins height >>= keep tx r fee in
      let k₁ = λ (fee : ℕ). validate_coinbase_maturity tx r.coins.origins height >> k₂ fee in
      let (fee, valid, h₁) = >>=-eq-ok (validate_regular_transaction tx r.coins.utxo) k₁ h in
      let (_, h₂) = >>-eq-ok (validate_coinbase_maturity tx r.coins.origins height) (k₂ fee) h₁ in
      let (coins, applied, h₃) =
        >>=-eq-ok (apply_regular_transaction tx r.coins height) (keep tx r fee) h₂ in
      let same : coins ≡ out.1.coins = ground arith in
      ground (
        arith,
        ap (λ (k : Coins). value k.utxo) same,
        apply_regular_transaction-value tx r.coins height fee valid applied,
      )

  abbrev go_on : List Transaction → ℕ → ℕ × Replay → Result Replay
  go_on rest height (_, r) = apply_pending rest height r

  apply_pending-value :
      (txs : List Transaction) (height : ℕ) (r r' : Replay)
      → apply_pending txs height r ≡ ok r'
      → value r'.coins.utxo ≤ value r.coins.utxo
  unfolding apply_pending
  apply_pending-value [] height r r' h = ground arith
  apply_pending-value (tx ∷ rest) height r r' h =
      let (_, h₁) =
        fail_if-eq-ok (contains tx.id r.seen) pending_duplicate
          (apply_transaction tx height r >>= go_on rest height) h in
      let (out, applied, tail) = >>=-eq-ok (apply_transaction tx height r) (go_on rest height) h₁ in
      omega (
        arith,
        apply_transaction-value tx height r out applied,
        apply_pending-value rest height out.1 r' tail,
      )

  replay_pending-value :
      (s : State) (r r' : Replay)
      → replay_pending s r ≡ ok r'
      → value r'.coins.utxo ≤ value r.coins.utxo
  unfolding replay_pending
  replay_pending-value s r r' h =
      let (_, tail) =
        fail_if-eq-ok (ltb max_pending_transactions (length s.pending)) pending_limit
          (apply_pending s.pending (next_height s) r) h in
      apply_pending-value s.pending (next_height s) r r' tail

  -- With or without the pending transactions the coins stay within what was minted.
  pub replay-value-le :
      (now : ℕ → ℤ) (s : State) (include_pending : Bool) (r : Replay)
      → length s.blocks ≤ 2 ^ 64
      → replay now s include_pending ≡ ok r
      → value r.coins.utxo ≤ minted_through (length s.blocks - 1)
  replay-value-le now s include_pending r b h =
      let (confirmed, accepted, _, rest) = replay-ok now s include_pending r h in
      let all = replay-value now s confirmed b accepted in
      elim include_pending
          as (λ i.
            (if i then replay_pending s confirmed else ok confirmed) ≡ ok r
            → value r.coins.utxo ≤ minted_through (length s.blocks - 1)) [
              | true ↦ λ e. omega (arith, all, replay_pending-value s confirmed r e)
              | false ↦ λ e. ground (arith, all)
            ]
        rest

  balance_from_utxo_fits :
      (utxo : Utxo) (address : Bytes)
      → value utxo ≤ max_uint64
      → (n : ℕ) × (balance_from_utxo utxo address ≡ ok n) × (n ≤ value utxo)
  unfolding balance_from_utxo
  balance_from_utxo_fits utxo address b =
      let (n, sum, bound) = balance_loop_fits address 0 utxo (omega arith) in (n, sum, omega arith)

  -- what a balance adds up
  abbrev funds : State → Bool → Replay → Utxo
  funds s true r = mature_utxo r.coins.utxo r.coins.origins (next_height s)
  funds s false r = r.coins.utxo

  funds-value : (s : State) (i : Bool) (r : Replay) → value (funds s i r) ≤ value r.coins.utxo
  funds-value s true r = mature_utxo-value r.coins.utxo r.coins.origins (next_height s)
  funds-value s false r = omega arith

  balance_step :
      (now : ℕ → ℤ) (s : State) (address : Bytes) (i : Bool) (r : Replay)
      → validate_address address ≡ ok tt
      → replay now s i ≡ ok r
      → balance now s address i ≡ balance_from_utxo (funds s i r) address
  balance_step now s address true r v h = unfold balance in rw (v, h)
  balance_step now s address false r v h = unfold balance in rw (v, h)

  -- On an accepted chain the balance of a valid address is computed without overflow, and is at most
  -- what the schedule has minted through the last block.
  pub balance_total :
      (now : ℕ → ℤ) (s : State) (address : Bytes) (include_pending : Bool) (r : Replay)
      → length s.blocks ≤ 2 ^ 64
      → validate_address address ≡ ok tt
      → replay now s include_pending ≡ ok r
      → (n : ℕ) × (balance now s address include_pending ≡ ok n)
        × (n ≤ minted_through (length s.blocks - 1))
  balance_total now s address include_pending r b v h =
      let minted = replay-value-le now s include_pending r b h in
      let limit = (minted_through_bounds (length s.blocks - 1)).0 in
      let (n, sum, bound) =
        balance_from_utxo_fits (funds s include_pending r) address
          (omega (arith, minted, limit, funds-value s include_pending r)) in
      (
        n,
        balance_step now s address include_pending r v h ∙ sum,
        omega (arith, minted, funds-value s include_pending r),
      )
