-- ===== src/Core/Difficulty/Bounds.antt =====
-- The difficulty of internal/core/block.go stays between its limits and moves in small steps.
use entcoin.Base.{
  ℕ, ◌+◌, ◌-◌, ◌%◌, ◌≤◌, ◌≡◌, Bool, false, ◌||◌, not, List, length, ap, ltb, eqb, Result, ok, ◌>>=◌,
  >>=-eq-ok, fail_if-eq-ok, Bool-cases, inl, inr, arith, sym, ◌∙◌, if◌then◌else◌,
}
use entcoin.Base.Int.{ℤ, pos, negsuc, ◌-ℤ◌, ◌+ℤ◌}
use entcoin.Core.Model.{
  adjustment_blocks, minimum_difficulty, maximum_difficulty, Block, initial_difficulty,
  first_adjustment, asert_half_life_seconds,
}
use entcoin.Core.Time.{wrap_int64, last_block, median_time_at}
use entcoin.Core.Difficulty.{
  clamp_difficulty, adjust, epoch_difficulty, expected_difficulty, corrected, asert_difficulty,
  asert_deviation, rounded_quotient,
}

-- The allowed range.
abbrev pub InLimits : ℕ → Type 0
InLimits d = (minimum_difficulty ≤ d) × (d ≤ maximum_difficulty)

corrected_bounds : (z : ℤ) → InLimits (corrected z)
unfolding corrected ◌+ℤ◌
corrected_bounds (pos n) = ground arith
corrected_bounds (negsuc n) = ground arith

-- The ASERT difficulty is always within the limits, whatever the height and the timestamp.
pub asert_difficulty_bounds :
    (next_height : ℕ) (next_timestamp : ℤ) → InLimits (asert_difficulty next_height next_timestamp)
unfolding asert_difficulty asert_deviation
asert_difficulty_bounds next_height next_timestamp =
    corrected_bounds
      (rounded_quotient (asert_deviation next_height next_timestamp) asert_half_life_seconds)

clamp_difficulty_bounds : (z : ℤ) → InLimits (clamp_difficulty z)
unfolding clamp_difficulty
clamp_difficulty_bounds z = ground arith

-- From a lawful difficulty an epoch's step is lawful, and of two at most.
adjust_bounds :
    (previous : ℕ) (actual : ℤ)
    → InLimits previous
    → InLimits (adjust previous actual)
      × (adjust previous actual ≤ previous + 2)
      × (previous ≤ adjust previous actual + 2)
unfolding adjust clamp_difficulty ◌+ℤ◌ ◌-ℤ◌
adjust_bounds previous actual h = ground arith

-- A lawful step from `previous`.
abbrev pub InStep : ℕ → ℕ → Type 0
InStep previous d = InLimits d × (d ≤ previous + 2) × (previous ≤ d + 2)

ok_InStep :
    (previous : ℕ) {a d : ℕ}
    → ◌≡◌ {A = Result ℕ} (ok a) (ok d)
    → InStep previous a
    → InStep previous d
ok_InStep previous e h = ground (arith, e, h)

epoch_difficulty_bounds :
    (blocks : List Block) (previous : ℕ) {d : ℕ}
    → InLimits previous
    → epoch_difficulty blocks previous ≡ ok d
    → InStep previous d
unfolding epoch_difficulty
epoch_difficulty_bounds blocks previous {d} h success =
    let (last_time, _, e₁) = >>=-eq-ok (median_time_at blocks (length blocks - 1)) _ success in
    let (_, e₂) = fail_if-eq-ok (ltb (length blocks) (1 + adjustment_blocks)) _ _ e₁ in
    let (first_time, _, e₃) =
      >>=-eq-ok (median_time_at blocks (length blocks - 1 - adjustment_blocks)) _ e₂ in
    ok_InStep previous e₃ (adjust_bounds previous (wrap_int64 (last_time -ℤ first_time)) h)

abbrev from_last : List Block → ℕ → Block → Result ℕ
from_last blocks next_height last =
    if ltb next_height first_adjustment || not (eqb (next_height % adjustment_blocks) 0)
    then ok last.difficulty
    else epoch_difficulty blocks last.difficulty

abbrev first_or_later : List Block → ℕ → Bool → Result ℕ
first_or_later blocks next_height first =
    if first then ok initial_difficulty else (last_block blocks >>= from_last blocks next_height)

abbrev by_epoch : List Block → Block → Bool → Result ℕ
by_epoch blocks last kept =
    if kept then ok last.difficulty else epoch_difficulty blocks last.difficulty

expected_difficulty_step :
    (blocks : List Block) (next_height : ℕ) (last : Block)
    → eqb next_height 1 ≡ false
    → last_block blocks ≡ ok last
    → expected_difficulty blocks next_height ≡ from_last blocks next_height last
unfolding expected_difficulty
expected_difficulty_step blocks next_height last later found =
    ap (first_or_later blocks next_height) later
    ∙ ap (λ r. r >>= from_last blocks next_height) found

-- What the rule by epochs expects of the next block is within the limits, and differs from the
-- difficulty of the last block by two at most. The last block is within the limits, and the next
-- one is not the first after genesis.
pub expected_difficulty_bounds :
    (blocks : List Block) (next_height : ℕ) (last : Block) {d : ℕ}
    → eqb next_height 1 ≡ false
    → last_block blocks ≡ ok last
    → InLimits last.difficulty
    → expected_difficulty blocks next_height ≡ ok d
    → InLimits d × (d ≤ last.difficulty + 2) × (last.difficulty ≤ d + 2)
expected_difficulty_bounds blocks next_height last {d} later found h success =
    let kept = ltb next_height first_adjustment || not (eqb (next_height % adjustment_blocks) 0) in
    let step = sym (expected_difficulty_step blocks next_height last later found) ∙ success in
    elim (Bool-cases kept) [
      | inl same ↦
          ok_InStep last.difficulty (sym (ap (by_epoch blocks last) same) ∙ step)
            (ground (arith, h))
      | inr epoch ↦
          epoch_difficulty_bounds blocks last.difficulty h
            (sym (ap (by_epoch blocks last) epoch) ∙ step)
    ]
