-- ===== src/Core/Chain/Blocks.antt =====
-- The money that one block of internal/core/chain.go moves and creates.
use entcoin.Base.{
  ℕ, ◌+◌, ◌≤◌, ◌≡◌, refl, sym, ◌∙◌, ap, Bool, true, false, not, List, [], ◌∷◌, length, Result, ok,
  err, fail_if, ◌>>=◌, ◌>>◌, >>=-eq-ok, fail_if-eq-ok, >>-eq-ok, arith, many_coinbases,
  duplicate_transaction, first_coinbase, duplicate_coinbase, coinbase_reward, eqb, ◌&&◌, fail_if_ok,
  no_reward, not_coinbase, coinbase_limits, coinbase_id, ltb, ◌||◌, bytes_eq, bytes_Eq,
}
use entcoin.Base.Map.{put, contains}
use entcoin.Core.Model.{max_uint64, max_transaction_bytes, Transaction}
use entcoin.Core.Amount.{subsidy, safe_add}
use entcoin.Core.Amount.Supply.{subsidy-le, safe_add-ok}
use entcoin.Core.Encoding.{Crypto}
use entcoin.Core.Transaction.{
  validate_regular_transaction, validate_coinbase, sum_outputs, encoded_size, compute_id,
}
use entcoin.Core.Coins.{Coins, apply_outputs, apply_regular_transaction, validate_coinbase_maturity}
use entcoin.Core.Coins.Value.{value, outputs_value, apply_outputs_from-value, sum_outputs-ok}
use entcoin.Core.Coins.Spend.{apply_regular_transaction-value}
use entcoin.Core.Chain.{Replay, apply_transactions, connect_transactions}

reward_lem : (total maximum : ℕ) → not (eqb total maximum) ≡ false → total ≡ maximum
reward_lem total maximum h = ground arith

module _ ⦃c : Crypto⦄ where
  -- One round of the loop over a block's regular transactions.
  abbrev continue_with :
      List Transaction → Transaction → ℕ → ℕ → Replay → Coins → Result (ℕ × Replay)
  continue_with rest tx height fees r coins =
      apply_transactions rest height fees (record { coins = coins; seen = put tx.id tt r.seen })

  pub apply_transactions_step :
      (tx : Transaction) (rest : List Transaction) (height fees : ℕ) (r : Replay) (out : ℕ × Replay)
      → apply_transactions (tx ∷ rest) height fees r ≡ ok out
      → (fee : ℕ) × (fees' : ℕ) × (coins : Coins) × (contains tx.id r.seen ≡ false)
        × (validate_regular_transaction tx r.coins.utxo ≡ ok fee)
        × (validate_coinbase_maturity tx r.coins.origins height ≡ ok tt)
        × (safe_add fees fee ≡ ok fees')
        × (apply_regular_transaction tx r.coins height ≡ ok coins)
        × (continue_with rest tx height fees' r coins ≡ ok out)
  unfolding apply_transactions
  apply_transactions_step tx rest height fees r out h =
      let k₄ = λ (fees' : ℕ).
        apply_regular_transaction tx r.coins height >>= continue_with rest tx height fees' r in
      let k₃ = λ (fee : ℕ). safe_add fees fee >>= k₄ in
      let k₂ = λ (fee : ℕ). validate_coinbase_maturity tx r.coins.origins height >> k₃ fee in
      let (_, h₁) = fail_if-eq-ok tx.coinbase many_coinbases _ h in
      let (new, h₂) = fail_if-eq-ok (contains tx.id r.seen) duplicate_transaction _ h₁ in
      let (fee, valid, h₃) = >>=-eq-ok (validate_regular_transaction tx r.coins.utxo) k₂ h₂ in
      let (mature, h₄) =
        >>-eq-ok (validate_coinbase_maturity tx r.coins.origins height) (k₃ fee) h₃ in
      let (fees', added, h₅) = >>=-eq-ok (safe_add fees fee) k₄ h₄ in
      let (coins, applied, h₆) =
        >>=-eq-ok (apply_regular_transaction tx r.coins height)
          (continue_with rest tx height fees' r) h₅ in
      (fee, fees', coins, new, valid, mature, added, applied, h₆)

  apply_transactions_nil :
      (height fees : ℕ) (r : Replay) → apply_transactions [] height fees r ≡ ok (fees, r)
  unfolding apply_transactions
  apply_transactions_nil height fees r = refl

  connect_transactions_nil :
      (height : ℕ) (r : Replay) → connect_transactions [] height r ≡ err first_coinbase
  unfolding connect_transactions
  connect_transactions_nil height r = refl

  apply_outputs-value :
      (tx : Transaction) (coins : Coins) (height : ℕ) (coinbase : Bool) {coins' : Coins}
      → apply_outputs tx coins height coinbase ≡ ok coins'
      → value coins'.utxo ≡ value coins.utxo + outputs_value tx.outputs
  unfolding apply_outputs
  apply_outputs-value tx coins height coinbase h =
      apply_outputs_from-value 0 tx.id tx.outputs height coinbase coins h

  -- The fees of a block's transactions are what the unspent outputs lose.
  pub apply_transactions-value :
      (txs : List Transaction) (height fees : ℕ) (r : Replay) (fees' : ℕ) (r' : Replay)
      → fees ≤ max_uint64
      → apply_transactions txs height fees r ≡ ok (fees', r')
      → (value r'.coins.utxo + fees' ≡ value r.coins.utxo + fees) × (fees' ≤ max_uint64)
  apply_transactions-value [] height fees r fees' r' b h =
      ground (arith, apply_transactions_nil height fees r)
  apply_transactions-value (tx ∷ rest) height fees r fees' r' b h =
      let (fee, fees₁, coins, new, valid, mature, added, applied, tail) =
        apply_transactions_step tx rest height fees r (fees', r') h in
      let sum = safe_add-ok fees fee b added in
      omega (
        arith,
        sum,
        apply_regular_transaction-value tx r.coins height fee valid applied,
        apply_transactions-value rest height fees₁
            (record { coins = coins; seen = put tx.id tt r.seen }) fees' r' sum.1 tail,
      )

  abbrev reward_check : ℕ → ℕ → Result (Unit {0})
  reward_check maximum total = fail_if (not (eqb total maximum)) coinbase_reward

  validate_coinbase_step :
      (tx : Transaction) (maximum : ℕ)
      → validate_coinbase tx maximum ≡ (
          fail_if (not tx.coinbase || not (eqb (length tx.inputs) 0)) not_coinbase
          >> (fail_if (eqb (length tx.outputs) 0 && not (eqb maximum 0)) no_reward
              >> (fail_if
                    (ltb 1 (length tx.outputs) || ltb max_transaction_bytes (encoded_size tx))
                    coinbase_limits
                  >> (fail_if (not (bytes_eq tx.id (compute_id tx))) coinbase_id
                      >> (sum_outputs tx.outputs >>= reward_check maximum)))))
  unfolding validate_coinbase
  validate_coinbase_step tx maximum = refl

  -- A coinbase pays exactly its reward.
  pub validate_coinbase-value :
      (tx : Transaction) (maximum : ℕ)
      → validate_coinbase tx maximum ≡ ok tt
      → outputs_value tx.outputs ≡ maximum
  validate_coinbase-value tx maximum h =
      let (_, h₁) =
        fail_if-eq-ok (not tx.coinbase || not (eqb (length tx.inputs) 0)) not_coinbase _
          (sym (validate_coinbase_step tx maximum) ∙ h) in
      let (_, h₂) =
        fail_if-eq-ok (eqb (length tx.outputs) 0 && not (eqb maximum 0)) no_reward _ h₁ in
      let (_, h₃) =
        fail_if-eq-ok (ltb 1 (length tx.outputs) || ltb max_transaction_bytes (encoded_size tx))
          coinbase_limits _ h₂ in
      let (_, h₄) =
        fail_if-eq-ok (not (bytes_eq tx.id (compute_id tx))) coinbase_id
          (sum_outputs tx.outputs >>= reward_check maximum) h₃ in
      let (total, summed, h₅) = >>=-eq-ok (sum_outputs tx.outputs) (reward_check maximum) h₄ in
      let paid = fail_if_ok (not (eqb total maximum)) coinbase_reward h₅ in
      omega (arith, sum_outputs-ok tx.outputs summed, reward_lem total maximum paid)

  -- What an accepted block's transactions went through.
  abbrev finish : Transaction → Replay → Coins → Result Replay
  finish coinbase r coins = ok (record { coins = coins; seen = put coinbase.id tt r.seen })

  abbrev pay_coinbase : Transaction → ℕ → Replay → ℕ → Result Replay
  pay_coinbase coinbase height r maximum =
      validate_coinbase coinbase maximum
      >> (apply_outputs coinbase r.coins height true >>= finish coinbase r)

  abbrev after_regular : Transaction → ℕ → ℕ × Replay → Result Replay
  after_regular coinbase height (fees, r) =
      fail_if (contains coinbase.id r.seen) duplicate_coinbase
      >> (safe_add (subsidy height) fees >>= pay_coinbase coinbase height r)

  connect_transactions_step :
      (coinbase : Transaction) (rest : List Transaction) (height : ℕ) (r : Replay)
      → connect_transactions (coinbase ∷ rest) height r ≡ (
          fail_if (not coinbase.coinbase) first_coinbase
          >> (apply_transactions rest height 0 r >>= after_regular coinbase height))
  unfolding connect_transactions
  connect_transactions_step coinbase rest height r = refl

  pay_coinbase-value :
      (coinbase : Transaction) (height : ℕ) (r : Replay) (maximum : ℕ) (r' : Replay)
      → pay_coinbase coinbase height r maximum ≡ ok r'
      → value r'.coins.utxo ≡ value r.coins.utxo + maximum
  pay_coinbase-value coinbase height r maximum r' h =
      let (valid, h₁) =
        >>-eq-ok (validate_coinbase coinbase maximum)
          (apply_outputs coinbase r.coins height true >>= finish coinbase r) h in
      let (coins, applied, h₂) =
        >>=-eq-ok (apply_outputs coinbase r.coins height true) (finish coinbase r) h₁ in
      let same : coins ≡ r'.coins = ground arith in
      ground (
        arith,
        ap (λ (k : Coins). value k.utxo) same,
        validate_coinbase-value coinbase maximum valid,
        apply_outputs-value coinbase r.coins height true applied,
      )

  -- A block adds exactly its subsidy.
  pub connect_transactions-value :
      (txs : List Transaction) (height : ℕ) (r r' : Replay)
      → connect_transactions txs height r ≡ ok r'
      → value r'.coins.utxo ≡ value r.coins.utxo + subsidy height
  connect_transactions-value [] height r r' h = cc (connect_transactions_nil height r)
  connect_transactions-value (coinbase ∷ rest) height r r' h =
      let (_, h₁) =
        fail_if-eq-ok (not coinbase.coinbase) first_coinbase
          (apply_transactions rest height 0 r >>= after_regular coinbase height)
          (sym (connect_transactions_step coinbase rest height r) ∙ h) in
      let (out, applied, h₂) =
        >>=-eq-ok (apply_transactions rest height 0 r) (after_regular coinbase height) h₁ in
      let fees = out.0 in
      let r₁ = out.1 in
      let spent = apply_transactions-value rest height 0 r fees r₁ (omega arith) applied in
      let (_, h₃) =
        fail_if-eq-ok (contains coinbase.id r₁.seen) duplicate_coinbase
          (safe_add (subsidy height) fees >>= pay_coinbase coinbase height r₁) h₂ in
      let (maximum, added, h₄) =
        >>=-eq-ok (safe_add (subsidy height) fees) (pay_coinbase coinbase height r₁) h₃ in
      omega (
        arith,
        spent,
        safe_add-ok (subsidy height) fees (subsidy-le height) added,
        pay_coinbase-value coinbase height r₁ maximum r' h₄,
      )
