-- ===== src/Core/Difficulty.antt =====
-- internal/core/block.go: the difficulty that the consensus rules expect of the next block.
pub mod Bounds
use entcoin.Base.{
  ℕ, zero, suc, ◌+◌, ◌-◌, ◌*◌, ◌/◌, ◌%◌, ◌^◌, Bool, true, false, ◌||◌, not, List, length, ltb, leb,
  eqb, Result, ok, err, fail_if, index_out_of_range, ◌>>=◌, ◌>>◌, if◌then◌else◌,
}
use entcoin.Base.Int.{ℤ, pos, negsuc, pos_part, ◌+ℤ◌, ◌-ℤ◌, ltb_ℤ, leb_ℤ, sub_ℕ}
use entcoin.Core.Model.{
  initial_difficulty, adjustment_blocks, first_adjustment, minimum_difficulty, maximum_difficulty,
  asert_anchor_height, asert_anchor_timestamp, asert_anchor_difficulty, asert_half_life_seconds,
  Block, DifficultyAlgorithm, legacy_epoch_difficulty, integer_asert_difficulty, rules_at_height,
}
use entcoin.Core.Amount.{target_block_seconds}
use entcoin.Core.Time.{wrap_int64, last_block, median_time_at}

unfoldable pub clamp_difficulty : ℤ → ℕ
clamp_difficulty difficulty =
    if ltb_ℤ difficulty (pos minimum_difficulty)
    then minimum_difficulty
    else if ltb_ℤ (pos maximum_difficulty) difficulty
    then maximum_difficulty
    else pos_part difficulty

-- the step of an epoch that took `actual` seconds
unfoldable pub adjust : ℕ → ℤ → ℕ
unfolding clamp_difficulty ◌+ℤ◌ ◌-ℤ◌
adjust previous actual =
    let target = adjustment_blocks * target_block_seconds in
    if leb_ℤ actual (pos (target / 4))
    then clamp_difficulty (pos previous +ℤ pos 2)
    else if ltb_ℤ actual (pos (target / 2))
    then clamp_difficulty (pos previous +ℤ pos 1)
    else if leb_ℤ (pos (target * 4)) actual
    then clamp_difficulty (pos previous -ℤ pos 2)
    else if ltb_ℤ (pos (target * 2)) actual
    then clamp_difficulty (pos previous -ℤ pos 1)
    else previous

-- the epoch that ends with `blocks`
unfoldable pub epoch_difficulty : List Block → ℕ → Result ℕ
unfolding median_time_at wrap_int64 adjust
epoch_difficulty blocks previous = do
  last_time ← median_time_at blocks (length blocks - 1)
  fail_if (ltb (length blocks) (1 + adjustment_blocks)) index_out_of_range
  first_time ← median_time_at blocks (length blocks - 1 - adjustment_blocks)
  ok (adjust previous (wrap_int64 (last_time -ℤ first_time)))

unfoldable pub expected_difficulty : List Block → ℕ → Result ℕ
unfolding last_block epoch_difficulty
expected_difficulty blocks next_height = if eqb next_height 1 then ok initial_difficulty else do
  last ← last_block blocks
  if ltb next_height first_adjustment || not (eqb (next_height % adjustment_blocks) 0)
      then ok last.difficulty
      else epoch_difficulty blocks last.difficulty

-- `Quo` of `big.Int` truncates towards zero
unfoldable pub quo : ℤ → ℕ → ℤ
quo (pos n) d = pos (n / d)
quo (negsuc n) d = sub_ℕ 0 (suc n / d)

unfoldable pub rounded_quotient : ℤ → ℕ → ℤ
unfolding quo ◌+ℤ◌ ◌-ℤ◌
rounded_quotient numerator denominator =
    let half = pos (denominator / 2) in
    quo (if ltb_ℤ numerator (pos 0) then numerator -ℤ half else numerator +ℤ half) denominator

-- The anchor's difficulty moved by `correction`, within the limits.
unfoldable pub corrected : ℤ → ℕ
unfolding ◌+ℤ◌
corrected correction =
    if ltb_ℤ (pos (maximum_difficulty - asert_anchor_difficulty)) correction
    then maximum_difficulty
    else if ltb_ℤ correction (sub_ℕ 0 (asert_anchor_difficulty - minimum_difficulty))
    then minimum_difficulty
    else pos_part (pos asert_anchor_difficulty +ℤ correction) % 256

-- How far the chain is behind its schedule, in seconds.
unfoldable pub asert_deviation : ℕ → ℤ → ℤ
unfolding ◌-ℤ◌
asert_deviation next_height next_timestamp =
    let height_delta = (next_height + 2 ^ 64 - asert_anchor_height) % 2 ^ 64 in
    let ideal_elapsed = pos (height_delta * target_block_seconds) in
    let actual_elapsed = next_timestamp -ℤ pos asert_anchor_timestamp in
    ideal_elapsed -ℤ actual_elapsed

unfoldable pub asert_difficulty : ℕ → ℤ → ℕ
unfolding rounded_quotient corrected asert_deviation
asert_difficulty next_height next_timestamp =
    corrected
      (rounded_quotient (asert_deviation next_height next_timestamp) asert_half_life_seconds)

abbrev by_algorithm : DifficultyAlgorithm → List Block → ℕ → ℤ → Result ℕ
by_algorithm legacy_epoch_difficulty blocks next_height next_timestamp =
    expected_difficulty blocks next_height
by_algorithm integer_asert_difficulty blocks next_height next_timestamp =
    ok (asert_difficulty next_height next_timestamp)

unfoldable pub expected_difficulty_at : List Block → ℕ → ℤ → Result ℕ
unfolding expected_difficulty asert_difficulty rules_at_height
expected_difficulty_at blocks next_height next_timestamp =
    by_algorithm (rules_at_height next_height).difficulty blocks next_height next_timestamp
