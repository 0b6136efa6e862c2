-- ===== src/Core/Address/Bits.antt =====
-- `equalBytes` of internal/core/wallet.go decides equality. The facts about `^` and `|` on bytes
-- come from a check of every pair.
use Prim.Native.Nat.{bit_or, bit_xor}
use entcoin.Base.{
  ℕ, zero, suc, ◌<◌, ◌≤◌, ◌≡◌, refl, ◌↔◌, Bool, true, false, ◌&&◌, [], ◌∷◌, Bytes, All, length, ltb,
  eqb, arith, Bool-cases, inl, inr,
}
use native.Mathlib.Decide.{dec_le}
use entcoin.Core.Address.{difference, equal_bytes}

-- A test of the numbers from `n` down.
unfoldable pub check_down : (ℕ → Bool) → ℕ → Bool
check_down test zero = test zero
check_down test (suc n) = check_down test n && test (suc n)

pub check_down_lem : (test : ℕ → Bool) (n b : ℕ) → b ≤ n → check_down test n ≡ true → test b ≡ true
unfolding check_down
check_down_lem test zero b below passed = let only : b ≡ 0 = omega arith in rw only passed
check_down_lem test (suc n) b below passed = elim (dec_le b n) [
  | yes lower ↦ check_down_lem test n b lower (ground arith)
  | no top ↦ let last : b ≡ suc n = omega arith in rw last (ground arith)
]

abbrev same : Bool → Bool → Bool
same true b = b
same false true = false
same false false = true

-- What the loop needs of a pair of bytes.
abbrev byte_facts : ℕ → ℕ → Bool
byte_facts x y =
    same (eqb (bit_xor x y) 0) (eqb x y)
    && ltb (bit_xor x y) 256
    && (same (eqb (bit_or x y) 0) (eqb x 0 && eqb y 0) && ltb (bit_or x y) 256)

byte_table : check_down (λ x. check_down (byte_facts x) 255) 255 ≡ true
unfolding check_down
byte_table = refl

byte_facts_lem : (x y : ℕ) → x < 256 → y < 256 → byte_facts x y ≡ true
byte_facts_lem x y hx hy =
    check_down_lem (byte_facts x) 255 y (omega arith)
      (check_down_lem (λ a. check_down (byte_facts a) 255) 255 x (omega arith) byte_table)

xor_facts : (x y : ℕ) → x < 256 → y < 256 → ((bit_xor x y ≡ 0) ↔ (x ≡ y)) × (bit_xor x y < 256)
xor_facts x y hx hy = ground (arith, byte_facts_lem x y hx hy)

or_facts :
    (x y : ℕ) → x < 256 → y < 256 → ((bit_or x y ≡ 0) ↔ ((x ≡ 0) × (y ≡ 0))) × (bit_or x y < 256)
or_facts x y hx hy = ground (arith, byte_facts_lem x y hx hy)

difference_lem :
    (a b : Bytes) (d : ℕ)
    → d < 256
    → All (λ x. x < 256) a
    → All (λ x. x < 256) b
    → length a ≡ length b
    → (difference a b d ≡ 0) ↔ ((d ≡ 0) × (a ≡ b))
unfolding difference
difference_lem [] [] d hd ha hb e = ground arith
difference_lem [] (y ∷ b) d hd ha hb e = absurd (omega arith)
difference_lem (x ∷ a) [] d hd ha hb e = absurd (omega arith)
difference_lem (x ∷ a) (y ∷ b) d hd ha hb e =
    let xor = xor_facts x y ha.0 hb.0 in
    let or = or_facts d (bit_xor x y) hd xor.1 in
    let ih = difference_lem a b (bit_or d (bit_xor x y)) or.1 ha.1 hb.1 (omega arith) in
    ground (arith, xor, or, ih)

pub equal_bytes_iff :
    (a b : Bytes) → All (λ x. x < 256) a → All (λ x. x < 256) b → (equal_bytes a b ≡ true) ↔ (a ≡ b)
unfolding equal_bytes
equal_bytes_iff a b ha hb = elim (Bool-cases (eqb (length a) (length b))) [
  | inl same_length ↦
      rw same_length (ground (arith, difference_lem a b 0 (omega arith) ha hb (ground arith)))
  | inr other ↦ ground arith
]
