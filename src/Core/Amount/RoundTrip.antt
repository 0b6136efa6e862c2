-- ===== src/Core/Amount/RoundTrip.antt =====
-- `ParseAmount` of internal/core/amount.go reads what `FormatAmount` prints.
use entcoin.Base.{
  ℕ, ◌/◌, ◌%◌, ◌≤◌, ◌≡◌, refl, ap, ◌∙◌, sym, ◌||◌, List, [], ◌∷◌, ◌++◌, ltb, eqb, fail_if, ◌>>=◌,
  ◌>>◌, invalid_amount, if◌then◌else◌, length, Bytes, ok, arith, Bool-cases, inl, inr, append-nil,
}
use entcoin.Core.Model.{max_uint64}
use entcoin.Core.Amount.{units_per_ent}
use entcoin.Core.Amount.Decimal.{
  parse_uint, pad_right, parse_fraction, join_units, parse_parts, parse_amount, format_uint,
  format_padded, format_amount,
}
use entcoin.Core.Amount.Digits.{
  split_digits, split_two, All-IsVisible, parse_amount_plain, format_uint-IsDigit,
  length-format_uint, parse_uint-digits, parse_digits-format_uint, length-format_padded,
  format_padded-IsDigit, parse_digits-format_padded, pad_right_full,
}

-- The units come back from the parts that were printed.
join_units_lem :
    (u : ℕ) → u ≤ max_uint64 → join_units (u / units_per_ent) (u % units_per_ent) ≡ ok u
unfolding join_units
join_units_lem u h = ground arith

parse_parts_step :
    (first : Bytes) (rest : List Bytes)
    → parse_parts (first ∷ rest) ≡ (
        fail_if (ltb 1 (length rest) || eqb (length first) 0) invalid_amount
        >> (parse_uint first >>= λ whole.
            fail_if (ltb (max_uint64 / units_per_ent) whole) invalid_amount
            >> (parse_fraction rest >>= λ fraction.
                parse_uint (pad_right fraction) >>= λ frac. join_units whole frac)))
unfolding parse_parts
parse_parts_step first rest = refl

-- With a whole part that was printed, what is left to read is the fraction.
parse_parts_printed :
    (whole frac : ℕ) (rest : List Bytes) {fraction : Bytes}
    → whole ≤ max_uint64 / units_per_ent
    → length rest ≤ 1
    → parse_fraction rest ≡ ok fraction
    → parse_uint (pad_right fraction) ≡ ok frac
    → parse_parts (format_uint whole ∷ rest) ≡ join_units whole frac
parse_parts_printed whole frac rest h n f p =
    parse_parts_step (format_uint whole) rest
    ∙ rw
        (
          parse_uint-digits (format_uint whole) (length-format_uint whole),
          parse_digits-format_uint whole (omega arith),
        )
        (ground (arith, length-format_uint whole, f, p))

parse_parts_whole :
    (u : ℕ)
    → u ≤ max_uint64
    → u % units_per_ent ≡ 0
    → parse_parts (format_uint (u / units_per_ent) ∷ []) ≡ ok u
parse_parts_whole u h z =
    parse_parts_printed (u / units_per_ent) 0 [] {fraction = []} (omega arith) (omega arith)
      (unfold parse_fraction in refl) (unfold parse_uint pad_right in refl)
    ∙ rw (← z) (join_units_lem u h)

parse_parts_fraction :
    (u : ℕ)
    → u ≤ max_uint64
    → parse_parts (format_uint (u / units_per_ent) ∷ format_padded (u % units_per_ent) ∷ []) ≡ ok u
parse_parts_fraction u h =
    let frac = u % units_per_ent in
    let len = length-format_padded frac (omega arith) in
    parse_parts_printed (u / units_per_ent) frac (format_padded frac ∷ [])
      {fraction = format_padded frac} (omega arith) (omega arith)
      (unfold parse_fraction in ground (arith, len))
      (rw (pad_right_full (format_padded frac) len) (
        parse_uint-digits (format_padded frac) (omega (arith, len))
        ∙ parse_digits-format_padded frac (omega arith)))
    ∙ join_units_lem u h

format_amount_step :
    (u : ℕ)
    → format_amount u ≡ (
        if eqb (u % units_per_ent) 0
        then format_uint (u / units_per_ent)
        else format_uint (u / units_per_ent) ++ (b'.' ∷ format_padded (u % units_per_ent)))
unfolding format_amount
format_amount_step u = refl

parse_printed_whole :
    (u : ℕ)
    → u ≤ max_uint64
    → u % units_per_ent ≡ 0
    → parse_amount (format_uint (u / units_per_ent)) ≡ ok u
parse_printed_whole u h z =
    let digits = format_uint (u / units_per_ent) in
    let digits-IsDigit = format_uint-IsDigit (u / units_per_ent) in
    ap parse_amount (sym (append-nil digits))
    ∙ parse_amount_plain digits [] digits-IsDigit (length-format_uint (u / units_per_ent)) tt
    ∙ rw (append-nil digits) (rw (split_digits digits digits-IsDigit) (parse_parts_whole u h z))

parse_printed_fraction :
    (u : ℕ)
    → u ≤ max_uint64
    → parse_amount (format_uint (u / units_per_ent) ++ (b'.' ∷ format_padded (u % units_per_ent)))
      ≡ ok u
parse_printed_fraction u h =
    let whole = format_uint (u / units_per_ent) in
    let fraction = format_padded (u % units_per_ent) in
    let whole-IsDigit = format_uint-IsDigit (u / units_per_ent) in
    let fraction-IsDigit = format_padded-IsDigit (u % units_per_ent) in
    parse_amount_plain whole (b'.' ∷ fraction) whole-IsDigit
      (length-format_uint (u / units_per_ent)) (refl, All-IsVisible fraction fraction-IsDigit)
    ∙ rw (split_two whole fraction whole-IsDigit fraction-IsDigit) (parse_parts_fraction u h)

-- Every amount is read back from its text.
pub parse_amount-format_amount :
    (units : ℕ) → units ≤ max_uint64 → parse_amount (format_amount units) ≡ ok units
parse_amount-format_amount units h = elim (Bool-cases (eqb (units % units_per_ent) 0)) [
  | inl whole ↦
      ap parse_amount (format_amount_step units)
      ∙ rw whole (parse_printed_whole units h (ground arith))
  | inr part ↦ ap parse_amount (format_amount_step units) ∙ rw part (parse_printed_fraction units h)
]
