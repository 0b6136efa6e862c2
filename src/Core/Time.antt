-- ===== src/Core/Time.antt =====
-- internal/core/block.go: int64 arithmetic, the median of past timestamps and the next timestamp.
-- Where Go indexes a slice out of range the result is `index_out_of_range`.
pub mod Median
use entcoin.Base.{
  ℕ, zero, suc, ◌+◌, ◌-◌, ◌/◌, ◌%◌, ◌^◌, ◌&&◌, List, [], ◌∷◌, length, get_elem?, ltb, Result, ok,
  err, or_fail, index_out_of_range, ◌>>=◌, if◌then◌else◌,
}
use entcoin.Base.Int.{ℤ, pos, negsuc, ◌+ℤ◌, ltb_ℤ, leb_ℤ}
use entcoin.Core.Model.{median_time_blocks, Block, rules_at_height}
use entcoin.Core.Encoding.{to_uint64}

-- an int64 from its bit pattern
abbrev pub from_uint64 : ℕ → ℤ
from_uint64 n = if ltb n (2 ^ 63) then pos n else negsuc (2 ^ 64 - 1 - n)

-- the result of int64 arithmetic
unfoldable pub wrap_int64 : ℤ → ℤ
unfolding to_uint64
wrap_int64 z = from_uint64 (to_uint64 z)

-- `blocks[len(blocks)-1]`
unfoldable pub last_block : List Block → Result Block
last_block [] = err index_out_of_range
last_block (b ∷ []) = ok b
last_block (b ∷ c ∷ blocks) = last_block (c ∷ blocks)

-- the timestamps of `count` blocks from `index`
unfoldable pub timestamps_from : List Block → ℕ → ℕ → Result (List ℤ)
timestamps_from blocks index zero = ok []
timestamps_from blocks index (suc count) = do
  block ← or_fail (get_elem? blocks index) index_out_of_range
  rest ← timestamps_from blocks (index + 1) count
  ok (block.timestamp ∷ rest)

unfoldable pub insert_sorted : ℤ → List ℤ → List ℤ
insert_sorted t [] = t ∷ []
insert_sorted t (u ∷ ts) = if leb_ℤ t u then t ∷ u ∷ ts else u ∷ insert_sorted t ts

-- `sort.Slice`, whose result is determined by the numbers
unfoldable pub sort : List ℤ → List ℤ
unfolding insert_sorted
sort [] = []
sort (t ∷ ts) = insert_sorted t (sort ts)

unfoldable pub middle : List ℤ → Result ℤ
unfolding sort
middle timestamps = or_fail (get_elem? (sort timestamps) (length timestamps / 2)) index_out_of_range

unfoldable pub median_time_at : List Block → ℕ → Result ℤ
unfolding timestamps_from middle
median_time_at blocks end = do
  let start = end + 1 - median_time_blocks
  timestamps ← timestamps_from blocks start (end + 1 - start)
  middle timestamps

unfoldable pub median_time_past : List Block → Result ℤ
unfolding median_time_at
median_time_past [] = err index_out_of_range
median_time_past (b ∷ blocks) = median_time_at (b ∷ blocks) (length blocks)

-- `now` is the clock's reading.
unfoldable pub next_timestamp_at : List Block → ℤ → Result ℤ
unfolding median_time_past last_block wrap_int64 rules_at_height
next_timestamp_at blocks now = do
  past ← median_time_past blocks
  last ← last_block blocks
  let after_median = wrap_int64 (past +ℤ pos 1)
  let next_height = (last.height + 1) % 2 ^ 64
  let minimum =
      if (rules_at_height next_height).require_monotonic_timestamp
        && leb_ℤ after_median last.timestamp
      then wrap_int64 (last.timestamp +ℤ pos 1)
      else after_median
  ok (if ltb_ℤ now minimum then minimum else now)
