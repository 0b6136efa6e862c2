-- ===== src/Core/Amount/Decimal.antt =====
-- `ParseAmount` and `FormatAmount` of internal/core/amount.go, over the bytes of an ASCII text, with
-- what they use of `strconv` and `strings`.
use entcoin.Base.{
  ℕ, zero, suc, ◌+◌, ◌-◌, ◌*◌, ◌/◌, ◌%◌, ◌^◌, Bool, true, false, ◌||◌, ◌&&◌, List, [], ◌∷◌, ◌++◌,
  ltb, leb, eqb, reverse, length, replicate, Bytes, ◌≡◌, refl, Result, ok, err, fail_if, ◌>>=◌,
  ◌>>◌, invalid_amount, decimal_places, amount_overflow, if◌then◌else◌,
}
use entcoin.Core.Model.{max_uint64}
use entcoin.Core.Amount.{units_per_ent}

abbrev pub is_space : ℕ → Bool
is_space c = (leb 9 c && leb c 13) || eqb c b' '

unfoldable pub trim_left : Bytes → Bytes
trim_left [] = []
trim_left (c ∷ cs) = if is_space c then trim_left cs else c ∷ cs

-- `strings.TrimSpace`
unfoldable pub trim_space : Bytes → Bytes
unfolding trim_left
trim_space s = reverse (trim_left (reverse (trim_left s)))

-- `strings.HasPrefix` with one character
abbrev pub has_prefix : ℕ → Bytes → Bool
has_prefix p [] = false
has_prefix p (c ∷ cs) = eqb c p

abbrev pub split_step : Bool → ℕ → List Bytes → List Bytes
split_step true c parts = [] ∷ parts
split_step false c [] = (c ∷ []) ∷ []
split_step false c (p ∷ parts) = (c ∷ p) ∷ parts

-- `strings.Split` at one character
unfoldable pub split : ℕ → Bytes → List Bytes
split sep [] = [] ∷ []
split sep (c ∷ cs) = split_step (eqb c sep) c (split sep cs)

-- the loop of `strconv.ParseUint` in base 10, with its range check
unfoldable pub parse_digits : ℕ → Bytes → Result ℕ
parse_digits n [] = ok n
parse_digits n (c ∷ cs) =
    let n' = n * 10 + (c - b'0') in
    let rest = parse_digits n' cs in
    if (leb b'0' c && leb c b'9') && leb n' max_uint64 then rest else err invalid_amount

unfoldable pub parse_uint : Bytes → Result ℕ
unfolding parse_digits
parse_uint [] = err invalid_amount
parse_uint (c ∷ cs) = parse_digits 0 (c ∷ cs)

-- `for len(fraction) < 8 { fraction += "0" }`
unfoldable pub pad_right : Bytes → Bytes
pad_right s = s ++ replicate (8 - length s) b'0'

-- the fraction text: absent, or of one to eight characters
unfoldable pub parse_fraction : List Bytes → Result Bytes
parse_fraction [] = ok []
parse_fraction (f ∷ rest) =
    if eqb (length f) 0 || ltb 8 (length f) then err decimal_places else ok f

-- `whole*UnitsPerENT + frac`, with its overflow check
unfoldable pub join_units : ℕ → ℕ → Result ℕ
join_units whole frac = do
  let units = (whole * units_per_ent + frac) % 2 ^ 64
  fail_if (ltb units (whole * units_per_ent % 2 ^ 64)) amount_overflow
  ok units

-- the parts that `strings.Split` returned, at least one
unfoldable pub parse_parts : List Bytes → Result ℕ
unfolding parse_uint parse_fraction pad_right join_units
parse_parts [] = err invalid_amount
parse_parts (first ∷ rest) = do
  fail_if (ltb 1 (length rest) || eqb (length first) 0) invalid_amount
  whole ← parse_uint first
  fail_if (ltb (max_uint64 / units_per_ent) whole) invalid_amount
  fraction ← parse_fraction rest
  frac ← parse_uint (pad_right fraction)
  join_units whole frac

unfoldable pub parse_amount : Bytes → Result ℕ
unfolding trim_space split parse_parts
parse_amount text = do
  let value = trim_space text
  fail_if (eqb (length value) 0 || has_prefix b'-' value || has_prefix b'+' value) invalid_amount
  parse_parts (split b'.' value)

-- The digits of `n`, before `acc`. Twenty rounds print every uint64.
unfoldable pub decimal : ℕ → ℕ → Bytes → Bytes
decimal zero n acc = acc
decimal (suc fuel) n acc =
    let acc' = (b'0' + n % 10) ∷ acc in
    let rest = decimal fuel (n / 10) acc' in if ltb n 10 then acc' else rest

-- `strconv.FormatUint(n, 10)`
unfoldable pub format_uint : ℕ → Bytes
unfolding decimal
format_uint n = decimal 20 n []

-- `%08d`
unfoldable pub format_padded : ℕ → Bytes
unfolding format_uint
format_padded n = let digits = format_uint n in replicate (8 - length digits) b'0' ++ digits

unfoldable pub format_amount : ℕ → Bytes
unfolding format_uint format_padded
format_amount units =
    let whole = units / units_per_ent in
    let fraction = units % units_per_ent in
    if eqb fraction 0
    then format_uint whole
    else format_uint whole ++ (b'.' ∷ format_padded fraction)

-- 12.05 and " 7 " are read, 1.123456789 is refused
parse_amount_runs :
    (parse_amount (b'1' ∷ b'2' ∷ b'.' ∷ b'0' ∷ b'5' ∷ []) ≡ ok 1_205_000_000)
    × (parse_amount (b' ' ∷ b'7' ∷ b' ' ∷ []) ≡ ok 700_000_000)
    × (parse_amount (b'7' ∷ b'.' ∷ []) ≡ err decimal_places)
    × (parse_amount (b'-' ∷ b'7' ∷ []) ≡ err invalid_amount)
unfolding parse_amount
parse_amount_runs = (refl, refl, refl, refl)

format_amount_runs :
    format_amount 1_205_000_000
    ≡ b'1' ∷ b'2' ∷ b'.' ∷ b'0' ∷ b'5' ∷ b'0' ∷ b'0' ∷ b'0' ∷ b'0' ∷ b'0' ∷ b'0' ∷ []
unfolding format_amount
format_amount_runs = refl
