-- ===== src/Core/Chain/Conservation.antt =====
-- The money of the chain of internal/core/chain.go: a replay ends with exactly the coins that the
-- schedule has issued.
use entcoin.Base.{
  ℕ, suc, ◌+◌, ◌-◌, ◌^◌, ◌≤◌, ◌<◌, ◌≡◌, refl, sym, subst, ◌∙◌, ap, Bool, true, false, not, List, [],
  ◌∷◌, ◌++◌, length, Result, ok, fail_if, ◌>>=◌, ◌>>◌, >>=-eq-ok, fail_if-eq-ok, fail_if-pass,
  >>-eq-ok, arith, genesis_mismatch, chain_identity, if◌then◌else◌, ◌||◌, ◌&&◌, bytes_eq, bytes_Eq,
}
use entcoin.Base.Int.{ℤ, leb_ℤ}
use entcoin.Core.Model.{Transaction, Block, State, chain_name, chain_symbol, state_version}
use entcoin.Core.Amount.{subsidy, minted_through}
use entcoin.Core.Amount.Supply.{issued, issued-zero, issued-suc, minted_through-issued}
use entcoin.Core.Encoding.{Crypto}
use entcoin.Core.Coins.Value.{value, value-empty}
use entcoin.Core.Header.{is_genesis, validate_block_header_at_time}
use entcoin.Core.Header.Body.{BlockHolds, validate_block_header-BlockHolds}
use entcoin.Core.Chain.{
  Replay, empty_replay, connect_transactions, replay_blocks, replay_from, replay_pending, replay,
}
use entcoin.Core.Chain.Blocks.{connect_transactions-value}

module _ ⦃c : Crypto⦄ where
  abbrev rest_of_replay : (ℕ → ℤ) → List Block → Block → List Block → Replay → Result Replay
  rest_of_replay now prior block rest r = replay_blocks now (prior ++ block ∷ []) block rest r

  abbrev connect_then : (ℕ → ℤ) → List Block → Block → List Block → Replay → Result Replay
  connect_then now prior block rest r =
      connect_transactions block.transactions block.height r >>= rest_of_replay now prior block rest

  -- One round of the replay.
  pub replay_blocks_step :
      (now : ℕ → ℤ) (prior : List Block) (previous block : Block) (rest : List Block)
      (r r' : Replay)
      → replay_blocks now prior previous (block ∷ rest) r ≡ ok r'
      → (r₁ : Replay) × BlockHolds block previous prior (now (length prior))
        × (connect_transactions block.transactions block.height r ≡ ok r₁)
        × (replay_blocks now (prior ++ block ∷ []) block rest r₁ ≡ ok r')
  unfolding replay_blocks
  replay_blocks_step now prior previous block rest r r' h =
      let (valid, h₁) =
        >>-eq-ok (validate_block_header_at_time block previous prior (now (length prior)))
          (connect_then now prior block rest r) h in
      let (r₁, connected, tail) =
        >>=-eq-ok (connect_transactions block.transactions block.height r)
          (rest_of_replay now prior block rest) h₁ in
      (
        r₁,
        validate_block_header-BlockHolds block previous prior (now (length prior)) valid,
        connected,
        tail,
      )

  replay_blocks_nil :
      (now : ℕ → ℤ) (prior : List Block) (previous : Block) (r : Replay)
      → replay_blocks now prior previous [] r ≡ ok r
  unfolding replay_blocks
  replay_blocks_nil now prior previous r = refl

  -- From what was issued up to one block to what was issued up to the last.
  replay_blocks-value :
      (now : ℕ → ℤ) (prior : List Block) (previous : Block) (blocks : List Block) (r r' : Replay)
      → previous.height + length blocks < 2 ^ 64
      → value r.coins.utxo ≡ issued previous.height
      → replay_blocks now prior previous blocks r ≡ ok r'
      → value r'.coins.utxo ≡ issued (previous.height + length blocks)
  replay_blocks-value now prior previous [] r r' b v h =
      let none_left : previous.height + 0 ≡ previous.height = omega arith in
      rw none_left (ground (arith, replay_blocks_nil now prior previous r, v))
  replay_blocks-value now prior previous (block ∷ rest) r r' b v h =
      let (r₁, holds, connected, tail) = replay_blocks_step now prior previous block rest r r' h in
      let height : block.height ≡ suc previous.height = omega (arith, holds.fields.height_ok) in
      let now_issued : value r₁.coins.utxo ≡ issued block.height = rw height (
        omega (
          arith,
          connect_transactions-value block.transactions block.height r r₁ connected,
          issued-suc previous.height,
          ap subsidy height,
        )) in
      let end : block.height + length rest ≡ previous.height + suc (length rest) =
        omega (arith, height) in
      subst (λ n. value r'.coins.utxo ≡ issued n) end
        (replay_blocks-value now (prior ++ block ∷ []) block rest r₁ r' (omega (arith, height))
          now_issued tail)

  genesis-height : (b : Block) → is_genesis b ≡ true → b.height ≡ 0
  unfolding is_genesis
  genesis-height b h = ground arith

  replay_from-value :
      (now : ℕ → ℤ) (blocks : List Block) (r : Replay)
      → length blocks ≤ 2 ^ 64
      → replay_from now blocks ≡ ok r
      → value r.coins.utxo ≡ minted_through (length blocks - 1)
  replay_from-value now [] r b h = cc
  replay_from-value now (genesis ∷ blocks) r b h =
      let (checked, h₁) =
        fail_if-eq-ok (not (is_genesis genesis)) genesis_mismatch
          (replay_blocks now (genesis ∷ []) genesis blocks empty_replay) h in
      let start = genesis-height genesis (ground arith) in
      let total =
        replay_blocks-value now (genesis ∷ []) genesis blocks empty_replay r (omega (arith, start))
          (value-empty ∙ rw start (sym issued-zero)) h₁ in
      let end : genesis.height + length blocks ≡ length (genesis ∷ blocks) - 1 =
        omega (arith, start) in
      subst (λ n. value r.coins.utxo ≡ issued n) end total
      ∙ sym (minted_through-issued (length (genesis ∷ blocks) - 1))

  abbrev identity_bad : State → Bool
  identity_bad s =
      not (leb_ℤ s.version state_version && leb_ℤ state_version s.version)
      || (not (bytes_eq s.name chain_name) || not (bytes_eq s.symbol chain_symbol))

  abbrev include : Bool → State → Replay → Result Replay
  include include_pending s r = if include_pending then replay_pending s r else ok r

  replay_step :
      (now : ℕ → ℤ) (s : State) (include_pending : Bool)
      → replay now s include_pending ≡ (
          fail_if (identity_bad s) chain_identity
          >> (replay_from now s.blocks >>= include include_pending s))
  unfolding replay
  replay_step now s include_pending = refl

  -- A replay first rebuilds the confirmed coins.
  pub replay-ok :
      (now : ℕ → ℤ) (s : State) (include_pending : Bool) (r : Replay)
      → replay now s include_pending ≡ ok r
      → (confirmed : Replay) × (replay now s false ≡ ok confirmed)
        × (replay_from now s.blocks ≡ ok confirmed)
        × (include include_pending s confirmed ≡ ok r)
  replay-ok now s include_pending r h =
      let (known, h₁) =
        fail_if-eq-ok (identity_bad s) chain_identity
          (replay_from now s.blocks >>= include include_pending s)
          (sym (replay_step now s include_pending) ∙ h) in
      let (confirmed, rebuilt, h₂) =
        >>=-eq-ok (replay_from now s.blocks) (include include_pending s) h₁ in
      (
        confirmed,
        replay_step now s false
            ∙ fail_if-pass (identity_bad s) chain_identity _ known
            ∙ ap (λ m. m >>= include false s) rebuilt,
        rebuilt,
        h₂,
      )

  -- Other pending transactions on the same confirmed blocks.
  pub replay_with_pending :
      (now : ℕ → ℤ) (s : State) (pending : List Transaction) (confirmed : Replay)
      → replay now s false ≡ ok confirmed
      → let s' : State = record s { pending = pending } in
        replay now s' true ≡ replay_pending s' confirmed
  replay_with_pending now s pending confirmed h =
      let (known, h₁) =
        fail_if-eq-ok (identity_bad s) chain_identity (replay_from now s.blocks >>= include false s)
          (sym (replay_step now s false) ∙ h) in
      let (found, rebuilt, same) = >>=-eq-ok (replay_from now s.blocks) (include false s) h₁ in
      let s' : State = record s { pending = pending } in
      replay_step now s' true
      ∙ fail_if-pass (identity_bad s) chain_identity _ known
      ∙ ap (λ m. m >>= include true s') (rebuilt ∙ same)

  -- When a chain of at most 2 ^ 64 blocks is accepted, its unspent outputs hold exactly what the
  -- schedule mints through its last block.
  pub replay-value :
      (now : ℕ → ℤ) (s : State) (r : Replay)
      → length s.blocks ≤ 2 ^ 64
      → replay now s false ≡ ok r
      → value r.coins.utxo ≡ minted_through (length s.blocks - 1)
  replay-value now s r b h =
      let (confirmed, _, rebuilt, same) = replay-ok now s false r h in
      replay_from-value now s.blocks r b (rebuilt ∙ same)
