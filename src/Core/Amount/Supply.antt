-- ===== src/Core/Amount/Supply.antt =====
-- The emission schedule of internal/core/amount.go: what the subsidies of a chain add up to.
use entcoin.Base.{ℕ, zero, suc, ◌+◌, ◌≤◌, ◌≡◌, refl, ◌↔◌, arith, ok}
use entcoin.Core.Model.{max_uint64}
use entcoin.Core.Amount.{max_supply, emission_blocks, subsidy, minted_through, safe_add}

-- The rewards of the blocks 1 to `height`, added up.
pub issued : ℕ → ℕ
issued zero = 0
issued (suc height) = issued height + subsidy (suc height)

minted_through-suc :
    (height : ℕ) → minted_through (suc height) ≡ minted_through height + subsidy (suc height)
unfolding minted_through subsidy
minted_through-suc height = ground arith

-- The closed form is the sum of the block subsidies at every height.
pub minted_through-issued : (height : ℕ) → minted_through height ≡ issued height
unfolding issued
minted_through-issued zero = unfold minted_through in refl
minted_through-issued (suc height) =
    omega (arith, minted_through-suc height, minted_through-issued height)

pub issued-zero : issued 0 ≡ 0
unfolding issued
issued-zero = refl

pub issued-suc : (height : ℕ) → issued (suc height) ≡ issued height + subsidy (suc height)
unfolding issued
issued-suc height = refl

-- Issuance never passes the supply limit, which is reached exactly at the last emission block and
-- held from there.
pub minted_through_bounds :
    (height : ℕ)
    → (minted_through height ≤ max_supply)
      × ((minted_through height ≡ max_supply) ↔ (emission_blocks ≤ height))
unfolding minted_through
minted_through_bounds height = ground arith

pub subsidy-le : (height : ℕ) → subsidy height ≤ max_uint64
unfolding subsidy
subsidy-le height = ground arith

-- `safe_add` returns the sum exactly when it fits a uint64.
pub safe_add_iff :
    (a b c : ℕ) → a ≤ max_uint64 → (safe_add a b ≡ ok c) ↔ ((c ≡ a + b) × (a + b ≤ max_uint64))
unfolding safe_add
safe_add_iff a b c h = ground arith

pub safe_add-ok :
    (a b : ℕ) {c : ℕ} → a ≤ max_uint64 → safe_add a b ≡ ok c → (c ≡ a + b) × (c ≤ max_uint64)
unfolding safe_add
safe_add-ok a b h e = ground arith

pub safe_add_fits : (a b : ℕ) → a + b ≤ max_uint64 → safe_add a b ≡ ok (a + b)
unfolding safe_add
safe_add_fits a b h = ground arith
