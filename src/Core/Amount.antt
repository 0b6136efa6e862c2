-- ===== src/Core/Amount.antt =====
-- internal/core/amount.go: the emission schedule, checked addition and amounts as text.
pub mod Supply
pub mod Decimal
pub mod Digits
pub mod RoundTrip
use entcoin.Base.{
  ℕ, suc, ◌+◌, ◌-◌, ◌*◌, ◌/◌, ◌%◌, Bool, true, false, ◌||◌, List, [], ◌∷◌, ◌++◌, ltb, leb, eqb,
  length, Result, ok, err, fail_if, ◌>>=◌, ◌>>◌, amount_overflow, if◌then◌else◌,
}
use entcoin.Core.Model.{max_uint64}

abbrev pub units_per_ent : ℕ
units_per_ent = 100_000_000

abbrev pub max_supply : ℕ
max_supply = 2_000_000 * units_per_ent

abbrev pub target_block_seconds : ℕ
target_block_seconds = 10

abbrev pub emission_blocks : ℕ
emission_blocks = 10 * 365 * 24 * 60 * 60 / target_block_seconds

abbrev pub base_subsidy : ℕ
base_subsidy = max_supply / emission_blocks

abbrev pub bonus_subsidy_blocks : ℕ
bonus_subsidy_blocks = max_supply % emission_blocks

unfoldable pub subsidy : ℕ → ℕ
subsidy height =
    if eqb height 0 || ltb emission_blocks height
    then 0
    else if leb height bonus_subsidy_blocks
    then base_subsidy + 1
    else base_subsidy

unfoldable pub minted_through : ℕ → ℕ
minted_through height =
    let height' = if ltb emission_blocks height then emission_blocks else height in
    let bonus = if ltb bonus_subsidy_blocks height' then bonus_subsidy_blocks else height' in
    height' * base_subsidy + bonus

-- `^uint64(0) - a` is not truncated for a uint64 `a`.
unfoldable pub safe_add : ℕ → ℕ → Result ℕ
safe_add a b = if ltb (max_uint64 - a) b then err amount_overflow else ok (a + b)
