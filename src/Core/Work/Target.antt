-- ===== src/Core/Work/Target.antt =====
-- What the proof of work of internal/core/block.go says of the hash as a number.
use entcoin.Base.{
  ℕ, zero, suc, ◌+◌, ◌*◌, ◌-◌, ◌^◌, ◌<◌, ◌≤◌, ◌≡◌, refl, sym, ap, ◌∙◌, subst, Bool, true, false,
  ◌||◌, [], ◌∷◌, Bytes, All, length, arith, leb, eqb, Bool-cases, inl, inr, if◌then◌else◌, Result,
  ok, err, err≢ok, invalid_hash, leb→le, ok_injective,
}
use native.Mathlib.Nat.{pow-suc}
use native.Mathlib.Numerals.{towards_suc}
use entcoin.Core.Model.{Block}
use entcoin.Core.Encoding.{hex_decode, decode_hash, check_hash_size}
use entcoin.Core.Address.{be_value}
use entcoin.Core.Address.Laws.{hex_decode_lower}
use entcoin.Core.Address.Bits.{check_down, check_down_lem}
use entcoin.Core.Work.{mask_zeros, leading_zero_bits, enough_zeros, has_valid_work}

-- A byte shifted by its leading zeros stays a byte.
abbrev shift_fits : ℕ → Bool
unfolding mask_zeros
shift_fits b = eqb b 0 || leb ((b + 1) * 2 ^ mask_zeros 8 0x80 b) 256

shift_table : check_down shift_fits 255 ≡ true
unfolding check_down shift_fits mask_zeros
shift_table = refl

be_value_step : (acc b : ℕ) (v : Bytes) → be_value acc (b ∷ v) ≡ be_value (acc * 256 + b) v
unfolding be_value
be_value_step acc b v = refl

be_value_nil : (acc : ℕ) → be_value acc [] ≡ acc
unfolding be_value
be_value_nil acc = refl

be_value_from : (acc : ℕ) (v : Bytes) → be_value acc v ≡ acc * 256 ^ length v + be_value 0 v
be_value_from acc [] = omega (arith, be_value_nil acc, be_value_nil 0)
be_value_from acc (b ∷ v) =
    let first = be_value_from (acc * 256 + b) v in
    let zeroth = be_value_from (0 * 256 + b) v in
    let power = ap (λ t. acc * t) (pow-suc 256 (length v)) in
    omega (arith, be_value_step acc b v, be_value_step 0 b v, first, zeroth, power)

be_value_cons : (b : ℕ) (v : Bytes) → be_value 0 (b ∷ v) ≡ b * 256 ^ length v + be_value 0 v
be_value_cons b v =
    let zeroth = be_value_from (0 * 256 + b) v in omega (arith, be_value_step 0 b v, zeroth)

byte_times : (b power : ℕ) → b < 256 → b * power ≤ 255 * power
byte_times b power h =
    let slack : b + (255 - b) ≡ 255 = omega arith in omega (arith, ap (λ (t : ℕ). t * power) slack)

be_value_bound : (v : Bytes) → All (λ b. b < 256) v → be_value 0 v < 256 ^ length v
be_value_bound [] h = omega (arith, be_value_nil 0)
be_value_bound (b ∷ v) h = omega (
  arith,
  be_value_bound v h.1,
  be_value_cons b v,
  pow-suc 256 (length v),
  byte_times b (256 ^ length v) h.0,
)

shifted :
    (b power low shift : ℕ)
    → low < power
    → (b + 1) * shift ≤ 256
    → 0 < shift
    → (b * power + low) * shift < 256 * power
shifted b power low shift h k l =
    let slack : low + 1 + (power - low - 1) ≡ power = omega arith in
    let slack' : (b + 1) * shift + (256 - (b + 1) * shift) ≡ 256 = omega arith in
    omega (arith, ap (λ (t : ℕ). t * shift) slack, ap (λ (t : ℕ). t * power) slack')

shift_fits_lem : (b : ℕ) → b < 256 → shift_fits b ≡ true
shift_fits_lem b h = check_down_lem shift_fits 255 b (omega arith) shift_table

second_holds : (a b : Bool) → (a || b) ≡ true → a ≡ false → b ≡ true
second_holds a b h k = ground (arith, h, k)

shift_le : (b : ℕ) → b < 256 → eqb b 0 ≡ false → (b + 1) * 2 ^ mask_zeros 8 0x80 b ≤ 256
unfolding shift_fits
shift_le b h k =
    leb→le ((b + 1) * 2 ^ mask_zeros 8 0x80 b) 256
      (second_holds (eqb b 0) (leb ((b + 1) * 2 ^ mask_zeros 8 0x80 b) 256) (shift_fits_lem b h) k)

leading_zero_bits_cons :
    (b : ℕ) (v : Bytes)
    → leading_zero_bits (b ∷ v) ≡ (if eqb b 0 then 8 + leading_zero_bits v else mask_zeros 8 0x80 b)
unfolding leading_zero_bits
leading_zero_bits_cons b v = refl

leading_zero_bits_nil : leading_zero_bits [] ≡ 0
unfolding leading_zero_bits
leading_zero_bits_nil = refl

power_positive : (n : ℕ) → 0 < 2 ^ n
power_positive zero = omega arith
power_positive (suc n) = omega (arith, pow-suc 2 n, power_positive n)

power_8 : (n : ℕ) → 2 ^ (8 + n) ≡ 256 * 2 ^ n
power_8 n =
    let swap : 8 + n ≡ n + 8 = omega arith in
    let shift : 2 ^ (n + 8) ≡ 256 * 2 ^ n = simp towards_suc (omega arith) in
    ap (λ (e : ℕ). 2 ^ e) swap ∙ shift

power_le : (n m : ℕ) → 2 ^ n ≤ 2 ^ (n + m)
power_le n zero = let same : n + 0 ≡ n = omega arith in omega (arith, ap (λ (e : ℕ). 2 ^ e) same)
power_le n (suc m) =
    let same : n + suc m ≡ suc (n + m) = omega arith in
    omega (arith, power_le n m, pow-suc 2 (n + m), ap (λ (e : ℕ). 2 ^ e) same)

-- The zero bits in front bound the number.
leading_bound :
    (v : Bytes) → All (λ b. b < 256) v → be_value 0 v * 2 ^ leading_zero_bits v < 256 ^ length v
leading_bound [] h = rw (leading_zero_bits_nil, be_value_nil 0) (omega arith)
leading_bound (b ∷ v) h = elim (Bool-cases (eqb b 0)) [
  | inl zero_byte ↦
      let is_zero : b ≡ 0 = ground (arith, zero_byte) in
      let bits : leading_zero_bits (b ∷ v) ≡ 8 + leading_zero_bits v =
        leading_zero_bits_cons b v ∙ rw zero_byte refl in
      let number : be_value 0 (b ∷ v) ≡ be_value 0 v =
        be_value_cons b v
        ∙ ap (λ (t : ℕ). t * 256 ^ length v + be_value 0 v) is_zero
        ∙ omega arith in
      subst (λ n. n * 2 ^ leading_zero_bits (b ∷ v) < 256 ^ length (b ∷ v)) (sym number)
        (subst (λ n. be_value 0 v * 2 ^ n < 256 ^ length (b ∷ v)) (sym bits)
          (omega (
            arith,
            leading_bound v h.1,
            pow-suc 256 (length v),
            ap (λ (t : ℕ). be_value 0 v * t) (power_8 (leading_zero_bits v)),
          )))
  | inr other ↦
      let bits : leading_zero_bits (b ∷ v) ≡ mask_zeros 8 0x80 b =
        leading_zero_bits_cons b v ∙ rw other refl in
      subst (λ n. n * 2 ^ leading_zero_bits (b ∷ v) < 256 ^ length (b ∷ v))
        (sym (be_value_cons b v))
        (subst (λ n. (b * 256 ^ length v + be_value 0 v) * 2 ^ n < 256 ^ length (b ∷ v)) (sym bits)
          (omega (
            arith,
            pow-suc 256 (length v),
            shifted b (256 ^ length v) (be_value 0 v) (2 ^ mask_zeros 8 0x80 b)
                (be_value_bound v h.1) (shift_le b h.0 other)
                (power_positive (mask_zeros 8 0x80 b)),
          )))
]

target_bound :
    (v : Bytes) (difficulty : ℕ)
    → All (λ b. b < 256) v
    → difficulty ≤ leading_zero_bits v
    → be_value 0 v * 2 ^ difficulty < 256 ^ length v
target_bound v difficulty h enough =
    let more = leading_zero_bits v - difficulty in
    let whole : leading_zero_bits v ≡ difficulty + more = omega arith in
    let slack : 2 ^ difficulty + (2 ^ (difficulty + more) - 2 ^ difficulty)
        ≡ 2 ^ (difficulty + more) =
      omega (arith, power_le difficulty more) in
    let bound : be_value 0 v * 2 ^ (difficulty + more) < 256 ^ length v =
      subst (λ n. be_value 0 v * 2 ^ n < 256 ^ length v) whole (leading_bound v h) in
    omega (arith, bound, ap (λ (t : ℕ). be_value 0 v * t) slack)

sized :
    (decoded : Bytes) {digest : Bytes}
    → eqb (length decoded) 32 ≡ true
    → ok decoded ≡ ok digest
    → (ok decoded ≡ ok digest) × (length digest ≡ 32)
sized decoded same h = (h, subst (λ d. length d ≡ 32) (ok_injective h) (ground (arith, same)))

sized_if :
    (decoded : Bytes)
    → eqb (length decoded) 32 ≡ false
    → check_hash_size (ok decoded) ≡ err invalid_hash
sized_if decoded other = rw other refl

wrong_size :
    (decoded : Bytes) {digest : Bytes}
    → eqb (length decoded) 32 ≡ false
    → check_hash_size (ok decoded) ≡ ok digest
    → ⊥
wrong_size decoded other h = err≢ok (sym (sized_if decoded other) ∙ h)

decoded_hash :
    (r : Result Bytes) {digest : Bytes}
    → check_hash_size r ≡ ok digest
    → (r ≡ ok digest) × (length digest ≡ 32)
decoded_hash (err e) h = absurd (err≢ok h)
decoded_hash (ok decoded) h = elim (Bool-cases (eqb (length decoded) 32)) [
  | inl same ↦ sized decoded same (sym (rw same refl) ∙ h)
  | inr other ↦ absurd (wrong_size decoded other h)
]

-- The hash of a block with enough work, as a number, is below 2 ^ 256 shifted down by the difficulty.
abbrev pub Meets : Bytes → ℕ → Type 0
Meets hash difficulty =
    (digest : Bytes) × (decode_hash hash ≡ ok digest)
    × (length digest ≡ 32)
    × (be_value 0 digest * 2 ^ difficulty < 2 ^ 256)

enough-Meets :
    (hash : Bytes) (difficulty : ℕ) (r : Result Bytes)
    → decode_hash hash ≡ r
    → enough_zeros r difficulty ≡ true
    → Meets hash difficulty
unfolding decode_hash
enough-Meets hash difficulty (err e) same h = cc
enough-Meets hash difficulty (ok digest) same h =
    let (decoded, sized) = decoded_hash (hex_decode hash) same in
    let (_, bytes) = hex_decode_lower hash digest decoded in
    let bound =
      target_bound digest difficulty bytes (leb→le difficulty (leading_zero_bits digest) h) in
    (digest, same, sized, subst (λ n. be_value 0 digest * 2 ^ difficulty < 256 ^ n) sized bound)

pub has_valid_work-Meets :
    (block : Block) → has_valid_work block ≡ true → Meets block.hash block.difficulty
unfolding has_valid_work
has_valid_work-Meets block h =
    enough-Meets block.hash block.difficulty (decode_hash block.hash) refl h
