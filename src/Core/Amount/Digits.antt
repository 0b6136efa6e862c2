-- ===== src/Core/Amount/Digits.antt =====
-- The texts that internal/core/amount.go prints and reads: digits, their number, padding and spaces.
use entcoin.Base.{
  ℕ, zero, suc, ◌+◌, ◌-◌, ◌*◌, ◌/◌, ◌%◌, ◌^◌, ◌≤◌, ◌<◌, ◌≡◌, refl, ap, ◌∙◌, false, [], ◌∷◌, ◌++◌,
  ltb, reverse, length, replicate, All, All-append, Bytes, ok, arith, Bool-cases, inl, inr,
  length-append, append-nil,
}
use mathlib.Core.List.{reverse-reverse, reverse-append}
use native.Mathlib.Nat.{pow-suc}
use entcoin.Core.Model.{max_uint64}
use entcoin.Core.Amount.Decimal.{
  is_space, trim_left, trim_space, split, parse_digits, parse_uint, pad_right, parse_parts,
  parse_amount, decimal, format_uint, format_padded,
}

abbrev IsDigit : ℕ → Type 0
IsDigit c = (48 ≤ c) × (c ≤ 57)

parse_digits_step :
    (n : ℕ) (acc : Bytes)
    → n ≤ max_uint64
    → parse_digits (n / 10) ((48 + n % 10) ∷ acc) ≡ parse_digits n acc
unfolding parse_digits
parse_digits_step n acc k =
    let value : n / 10 * 10 + (48 + n % 10 - 48) ≡ n = omega arith in rw value (ground arith)

-- Digits written before `acc` are read, most significant first, and reading goes on in `acc`.
parse_digits-decimal :
    (fuel n : ℕ) (acc : Bytes)
    → n < 10 ^ fuel
    → n ≤ max_uint64
    → parse_digits 0 (decimal fuel n acc) ≡ parse_digits n acc
unfolding decimal parse_digits
parse_digits-decimal zero n acc h k = let e : n ≡ 0 = omega arith in rw e
parse_digits-decimal (suc fuel) n acc h k = elim (Bool-cases (ltb n 10)) [
  | inl last ↦ rw last (ground arith)
  | inr more ↦ rw more (
      parse_digits-decimal fuel (n / 10) ((48 + n % 10) ∷ acc) (omega (arith, pow-suc 10 fuel))
        (omega arith)
      ∙ parse_digits_step n acc k)
]

decimal-IsDigit : (fuel n : ℕ) (acc : Bytes) → All IsDigit acc → All IsDigit (decimal fuel n acc)
unfolding decimal
decimal-IsDigit zero n acc h = h
decimal-IsDigit (suc fuel) n acc h =
    ground (arith, decimal-IsDigit fuel (n / 10) ((48 + n % 10) ∷ acc))

-- The number of digits: at least those that follow and one more, at most one for each round.
length-decimal :
    (fuel n : ℕ) (acc : Bytes)
    → (length acc ≤ length (decimal fuel n acc)) × (length (decimal fuel n acc) ≤ length acc + fuel)
unfolding decimal
length-decimal zero n acc = ground arith
length-decimal (suc fuel) n acc = ground (arith, length-decimal fuel (n / 10) ((48 + n % 10) ∷ acc))

-- A number below 10 ^ width has at most `width` digits.
length-decimal_width :
    (width fuel n : ℕ) (acc : Bytes)
    → n < 10 ^ suc width
    → length (decimal fuel n acc) ≤ length acc + suc width
unfolding decimal
length-decimal_width width zero n acc h = omega arith
length-decimal_width zero (suc fuel) n acc h = ground arith
length-decimal_width (suc width) (suc fuel) n acc h = elim (Bool-cases (ltb n 10)) [
  | inl last ↦ rw last (omega arith)
  | inr more ↦ rw more (
      omega (
        arith,
        length-decimal_width width fuel (n / 10) ((48 + n % 10) ∷ acc)
            (omega (arith, pow-suc 10 (suc width))),
      ))
]

abbrev IsVisible : ℕ → Type 0
IsVisible c = is_space c ≡ false

trim_left_lem : (s : Bytes) → All IsVisible s → trim_left s ≡ s
unfolding trim_left
trim_left_lem [] h = refl
trim_left_lem (c ∷ cs) h = rw (h.0)

All-reverse : (P : ℕ → Type 0) (s : Bytes) → All P s → All P (reverse s)
All-reverse P [] h = tt
All-reverse P (c ∷ cs) h =
    rw (reverse-append (c ∷ []) cs)
      (All-append P (reverse cs) (c ∷ []) (All-reverse P cs h.1) (h.0, tt))

-- A text with no white space is trimmed to itself.
trim_space_lem : (s : Bytes) → All IsVisible s → trim_space s ≡ s
unfolding trim_space
trim_space_lem s h =
    rw (trim_left_lem s h, trim_left_lem (reverse s) (All-reverse IsVisible s h), reverse-reverse)

pub split_digits : (s : Bytes) → All IsDigit s → split b'.' s ≡ s ∷ []
unfolding split
split_digits [] h = refl
split_digits (c ∷ cs) h = rw (split_digits cs h.1) (ground arith)

pub split_two :
    (s t : Bytes) → All IsDigit s → All IsDigit t → split b'.' (s ++ (b'.' ∷ t)) ≡ s ∷ t ∷ []
unfolding split
split_two [] t h k = rw (split_digits t k) refl
split_two (c ∷ cs) t h k = rw (split_two cs t h.1 k) (ground arith)

pub All-IsVisible : (s : Bytes) → All IsDigit s → All IsVisible s
All-IsVisible [] h = tt
All-IsVisible (c ∷ cs) h = (ground arith, All-IsVisible cs h.1)

-- A text that begins with a digit and has no white space goes to the splitting as it is.
pub parse_amount_plain :
    (s t : Bytes)
    → All IsDigit s
    → 1 ≤ length s
    → All IsVisible t
    → parse_amount (s ++ t) ≡ parse_parts (split b'.' (s ++ t))
unfolding parse_amount
parse_amount_plain [] t h n v = absurd (omega arith)
parse_amount_plain (c ∷ cs) t h n v =
    rw (trim_space_lem (c ∷ cs ++ t) (All-append IsVisible (c ∷ cs) t (All-IsVisible (c ∷ cs) h) v))
      (ground arith)

pub format_uint-IsDigit : (n : ℕ) → All IsDigit (format_uint n)
unfolding format_uint
format_uint-IsDigit n = decimal-IsDigit 20 n [] tt

length-decimal-suc : (fuel n : ℕ) → 1 ≤ length (decimal (suc fuel) n [])
unfolding decimal
length-decimal-suc fuel n = ground (arith, length-decimal fuel (n / 10) ((48 + n % 10) ∷ []))

pub length-format_uint : (n : ℕ) → 1 ≤ length (format_uint n)
unfolding format_uint
length-format_uint n = length-decimal-suc 19 n

pub parse_uint-digits : (s : Bytes) → 1 ≤ length s → parse_uint s ≡ parse_digits 0 s
unfolding parse_uint
parse_uint-digits [] h = absurd (omega arith)
parse_uint-digits (c ∷ cs) h = refl

pub parse_digits-format_uint : (n : ℕ) → n ≤ max_uint64 → parse_digits 0 (format_uint n) ≡ ok n
unfolding format_uint
parse_digits-format_uint n h =
    parse_digits-decimal 20 n [] (omega arith) h ∙ (unfold parse_digits in refl)

parse_digits_zeros : (k : ℕ) (s : Bytes) → parse_digits 0 (replicate k b'0' ++ s) ≡ parse_digits 0 s
parse_digits_zeros zero s = refl
parse_digits_zeros (suc k) s = parse_digits_step 0 _ (omega arith) ∙ parse_digits_zeros k s

replicate-IsDigit : (k : ℕ) → All IsDigit (replicate k b'0')
replicate-IsDigit zero = tt
replicate-IsDigit (suc k) = (omega arith, replicate-IsDigit k)

length-replicate : (k : ℕ) → length {A = ℕ} (replicate k b'0') ≡ k
length-replicate zero = refl
length-replicate (suc k) = ap suc (length-replicate k)

length-format_uint_width : (n : ℕ) → n < 10 ^ 8 → length (format_uint n) ≤ 8
unfolding format_uint
length-format_uint_width n h = length-decimal_width 7 20 n [] h

pub length-format_padded : (n : ℕ) → n < 10 ^ 8 → length (format_padded n) ≡ 8
unfolding format_padded
length-format_padded n h = omega (
  arith,
  length-append (replicate (8 - length (format_uint n)) b'0') (format_uint n),
  length-replicate (8 - length (format_uint n)),
  length-format_uint_width n h,
)

pub format_padded-IsDigit : (n : ℕ) → All IsDigit (format_padded n)
unfolding format_padded
format_padded-IsDigit n =
    All-append IsDigit _ _ (replicate-IsDigit (8 - length (format_uint n))) (format_uint-IsDigit n)

pub parse_digits-format_padded : (n : ℕ) → n ≤ max_uint64 → parse_digits 0 (format_padded n) ≡ ok n
unfolding format_padded
parse_digits-format_padded n h =
    parse_digits_zeros (8 - length (format_uint n)) (format_uint n) ∙ parse_digits-format_uint n h

pub pad_right_full : (s : Bytes) → length s ≡ 8 → pad_right s ≡ s
unfolding pad_right
pad_right_full s h = rw h (append-nil s)
