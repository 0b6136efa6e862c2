-- ===== src/Ledger/Mining/Priority.antt =====
-- The order of internal/ledger/mining.go compares the fee rates of two pending transactions.
use entcoin.Base.{
  ℕ, ◌*◌, ◌/◌, ◌%◌, ◌^◌, ◌<◌, ◌≡◌, ◌⊎◌, ◌↔◌, Bool, true, not, eqb, ltb, arith, if◌then◌else◌,
}
use entcoin.Ledger.Mining.{MiningItem, higher_mining_priority}

-- A higher fee for its size; at equal rates a higher fee; at equal fees an earlier place.
abbrev pub GoesBefore : MiningItem → MiningItem → Type 0
GoesBefore left right =
    (right.fee * left.encoded_size < left.fee * right.encoded_size)
    ⊎ ((left.fee * right.encoded_size ≡ right.fee * left.encoded_size)
        × ((right.fee < left.fee) ⊎ ((left.fee ≡ right.fee) × (left.sequence < right.sequence))))

words : ℕ → ℕ → ℕ → ℕ → ℕ → ℕ → Bool
words p q f g m n =
    if not (eqb (p / 2 ^ 64) (q / 2 ^ 64))
    then ltb (q / 2 ^ 64) (p / 2 ^ 64)
    else if not (eqb (p % 2 ^ 64) (q % 2 ^ 64))
    then ltb (q % 2 ^ 64) (p % 2 ^ 64)
    else if not (eqb f g)
    then ltb g f
    else ltb m n

words_iff :
    (p q f g m n : ℕ)
    → (words p q f g m n ≡ true) ↔ ((q < p) ⊎ ((p ≡ q) × ((g < f) ⊎ ((f ≡ g) × (m < n)))))
unfolding words
words_iff p q f g m n = ground arith

-- The comparison of the 128-bit products is that of the products: one item goes before another exactly
-- when its fee for its size is higher, or that is equal and its fee is higher, or both are equal and it
-- stands earlier.
pub higher_mining_priority_iff :
    (left right : MiningItem) → (higher_mining_priority left right ≡ true) ↔ GoesBefore left right
unfolding higher_mining_priority words
higher_mining_priority_iff left right =
    words_iff (left.fee * right.encoded_size) (right.fee * left.encoded_size) left.fee right.fee
      left.sequence right.sequence
