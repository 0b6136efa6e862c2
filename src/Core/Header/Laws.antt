-- ===== src/Core/Header/Laws.antt =====
-- What the header checks of internal/core/chain.go establish.
use entcoin.Base.{
  ℕ, ◌+◌, ◌%◌, ◌^◌, ◌≡◌, refl, sym, ◌∙◌, ◌↔◌, Bool, true, false, ◌&&◌, not, eqb, bytes_eq, List, [],
  ◌∷◌, ◌++◌, Bytes, ◌≤◌, ◌<◌, ◌⊎◌, length, err, bytes_eq_iff, Result, ok, fail_if, is_ok, ◌>>=◌,
  ◌>>◌, >>=-eq-ok, fail_if-eq-ok, fail_if-pass, fail_if_ok, ap, arith, block_version, prior_window,
  block_height, previous_hash, median_time, previous_time, future_time, difficulty,
  merkle_root_format,
}
use entcoin.Base.Int.{ℤ, pos, ◌+ℤ◌, ◌≤ℤ◌, pos_part, neg_part, +ℤ_parts, leb_ℤ, ltb_ℤ}
use entcoin.Core.Model.{
  Block, rules_at_height, consensus_upgrade_height, legacy_block_version, upgraded_block_version,
  max_future_seconds,
}
use entcoin.Core.Encoding.{decode_hash, hex_decode, check_hash_size}
use entcoin.Core.Time.{last_block, median_time_past}
use entcoin.Core.Time.Median.{IsMedian, recent, median_time_past-IsMedian}
use entcoin.Core.Difficulty.{expected_difficulty_at}
use entcoin.Core.Header.{max_int64, maximum_timestamp, ends_at, validate_header_consensus_fields}

infix 50 ◌<ℤ◌
-- `a` before `b`
abbrev pub ◌<ℤ◌ : ℤ → ℤ → Type 0
a <ℤ b = pos_part a + neg_part b < pos_part b + neg_part a

-- The window of earlier blocks ends with a block of the hash of `previous`.
abbrev pub EndsWith : List Block → Block → Type 0
EndsWith prior_blocks previous =
    (front : List Block) × (last : Block) × (front ++ last ∷ [] ≡ prior_blocks)
    × (last.hash ≡ previous.hash)

-- The version and, from the upgrade on, a timestamp after the previous one.
abbrev pub RulesHold : Block → Block → Type 0
RulesHold block previous =
    ((block.height < consensus_upgrade_height) × (block.version ≡ legacy_block_version))
    ⊎ ((consensus_upgrade_height ≤ block.height)
        × (block.version ≡ upgraded_block_version)
        × (previous.timestamp <ℤ block.timestamp))

-- All that an accepted header satisfies.
pub record FieldsHold (block previous : Block) (prior_blocks : List Block) (now : ℤ) : Type 0 where
  pub rules_ok : RulesHold block previous
  pub window_ok : EndsWith prior_blocks previous
  pub height_ok : block.height ≡ (previous.height + 1) % 2 ^ 64
  pub link_ok : block.previous_hash ≡ previous.hash
  pub median : ℤ
  pub median_ok : median_time_past prior_blocks ≡ ok median
  pub median_is : IsMedian median (recent prior_blocks)
  pub after_median : median <ℤ block.timestamp
  pub not_future : block.timestamp ≤ℤ (now +ℤ pos max_future_seconds)
  pub difficulty_ok :
      expected_difficulty_at prior_blocks block.height block.timestamp ≡ ok block.difficulty
  pub root : Bytes
  pub root_ok : hex_decode block.merkle_root ≡ ok root
  pub root_length : length root ≡ 32

last_block_front :
    (b : Block) (blocks : List Block)
    → (front : List Block) × (last : Block) × (front ++ last ∷ [] ≡ b ∷ blocks)
      × (last_block (b ∷ blocks) ≡ ok last)
unfolding last_block
last_block_front b [] = ([], b, refl, refl)
last_block_front b (c ∷ blocks) =
    let (front, last, whole, found) = last_block_front c blocks in
    (b ∷ front, last, ap (λ l. b ∷ l) whole, found)

last_block-append : (front : List Block) (last : Block) → last_block (front ++ last ∷ []) ≡ ok last
unfolding last_block
last_block-append [] last = refl
last_block-append (b ∷ []) last = refl
last_block-append (b ∷ c ∷ front) last = last_block-append (c ∷ front) last

ends_at_found :
    (blocks : List Block) (previous last : Block)
    → last_block blocks ≡ ok last
    → ends_at blocks previous ≡ bytes_eq last.hash previous.hash
unfolding ends_at
ends_at_found blocks previous last e = rw (e, ends_at) refl

ends_at_nil : (previous : Block) → ends_at [] previous ≡ false
unfolding ends_at last_block
ends_at_nil previous = refl

ends_at-EndsWith :
    (blocks : List Block) (previous : Block)
    → ends_at blocks previous ≡ true
    → EndsWith blocks previous
ends_at-EndsWith [] previous h = cc (ends_at_nil previous)
ends_at-EndsWith (b ∷ blocks) previous h =
    let (front, last, whole, found) = last_block_front b blocks in
    (
      front,
      last,
      whole,
      (bytes_eq_iff last.hash previous.hash).0
          (sym (ends_at_found (b ∷ blocks) previous last found) ∙ h),
    )

EndsWith-ends_at :
    (blocks : List Block) (previous : Block)
    → EndsWith blocks previous
    → ends_at blocks previous ≡ true
EndsWith-ends_at blocks previous (front, last, whole, same) =
    ends_at_found blocks previous last (sym (ap last_block whole) ∙ last_block-append front last)
    ∙ (bytes_eq_iff last.hash previous.hash).1 same

-- The clock's reading and the allowance, cut off at the largest int64, bound an int64 alike.
within_allowance :
    (now timestamp : ℤ)
    → ltb_ℤ (maximum_timestamp now) timestamp ≡ false
    → timestamp ≤ℤ (now +ℤ pos max_future_seconds)
unfolding maximum_timestamp
within_allowance now timestamp h = ground (arith, h, +ℤ_parts now (pos max_future_seconds))

allowance_within :
    (now timestamp : ℤ)
    → timestamp ≤ℤ pos max_int64
    → timestamp ≤ℤ (now +ℤ pos max_future_seconds)
    → ltb_ℤ (maximum_timestamp now) timestamp ≡ false
unfolding maximum_timestamp
allowance_within now timestamp fits h = ground (arith, +ℤ_parts now (pos max_future_seconds))

rules_iff :
    (block previous : Block)
    → ((not (eqb block.version (rules_at_height block.height).version) ≡ false)
        × (((rules_at_height block.height).require_monotonic_timestamp
              && leb_ℤ block.timestamp previous.timestamp)
            ≡ false))
      ↔ RulesHold block previous
unfolding rules_at_height
rules_iff block previous = ground arith

hash_digits :
    (r : Result Bytes)
    → is_ok (check_hash_size r) ≡ true
    → (root : Bytes) × (r ≡ ok root) × (length root ≡ 32)
hash_digits (err e) h = cc
hash_digits (ok root) h = (root, refl, ground (arith, h))

digits_hash :
    (r : Result Bytes) (root : Bytes)
    → r ≡ ok root
    → length root ≡ 32
    → is_ok (check_hash_size r) ≡ true
digits_hash r root e size = ap (λ d. is_ok (check_hash_size d)) e ∙ ground (arith, size)

decode_hash_lem :
    (text : Bytes) → is_ok (decode_hash text) ≡ is_ok (check_hash_size (hex_decode text))
unfolding decode_hash
decode_hash_lem text = refl

before_of_leb : (a b : ℤ) → leb_ℤ b a ≡ false → a <ℤ b
before_of_leb a b h = ground arith

leb_of_before : (a b : ℤ) → a <ℤ b → leb_ℤ b a ≡ false
leb_of_before a b h = ground arith

module _ (block previous : Block) (prior_blocks : List Block) (now : ℤ) where
  abbrev bad_version : Bool
  bad_version = not (eqb block.version (rules_at_height block.height).version)

  abbrev bad_height : Bool
  bad_height = not (eqb block.height ((previous.height + 1) % 2 ^ 64))

  abbrev bad_link : Bool
  bad_link = not (bytes_eq block.previous_hash previous.hash)

  abbrev bad_time : Bool
  bad_time =
      (rules_at_height block.height).require_monotonic_timestamp
      && leb_ℤ block.timestamp previous.timestamp

  abbrev checks_after_difficulty : ℕ → Result (Unit {0})
  checks_after_difficulty expected =
      fail_if (not (eqb block.difficulty expected)) difficulty
      >> fail_if (not (is_ok (decode_hash block.merkle_root))) merkle_root_format

  abbrev checks_from_time : Result (Unit {0})
  checks_from_time =
      fail_if bad_time previous_time
      >> (fail_if (ltb_ℤ (maximum_timestamp now) block.timestamp) future_time
          >> (expected_difficulty_at prior_blocks block.height block.timestamp
              >>= checks_after_difficulty))

  abbrev checks_after_median : ℤ → Result (Unit {0})
  checks_after_median median =
      fail_if (leb_ℤ block.timestamp median) median_time >> checks_from_time

  abbrev checks_from_link : Result (Unit {0})
  checks_from_link =
      fail_if bad_link previous_hash >> (median_time_past prior_blocks >>= checks_after_median)

  validate_header_consensus_fields_step :
      validate_header_consensus_fields block previous prior_blocks now ≡ (
        fail_if bad_version block_version
        >> (fail_if (not (ends_at prior_blocks previous)) prior_window
            >> (fail_if bad_height block_height >> checks_from_link)))
  unfolding validate_header_consensus_fields
  validate_header_consensus_fields_step = refl

  difficulty_checks :
      (expected : ℕ)
      → checks_after_difficulty expected ≡ ok tt
      → (block.difficulty ≡ expected) × (is_ok (decode_hash block.merkle_root) ≡ true)
  difficulty_checks expected h =
      let (same, rest) = fail_if-eq-ok (not (eqb block.difficulty expected)) difficulty _ h in
      (ground arith, ground (arith, fail_if_ok _ merkle_root_format rest))

  pub validate_header_consensus_fields-FieldsHold :
      validate_header_consensus_fields block previous prior_blocks now ≡ ok tt
      → FieldsHold block previous prior_blocks now
  validate_header_consensus_fields-FieldsHold h =
      let (v, h₁) =
        fail_if-eq-ok bad_version block_version _ (sym validate_header_consensus_fields_step ∙ h) in
      let (w, h₂) = fail_if-eq-ok (not (ends_at prior_blocks previous)) prior_window _ h₁ in
      let (n, h₃) = fail_if-eq-ok bad_height block_height checks_from_link h₂ in
      let (l, h₄) = fail_if-eq-ok bad_link previous_hash _ h₃ in
      let (median, m, h₅) = >>=-eq-ok (median_time_past prior_blocks) checks_after_median h₄ in
      let (a, h₆) = fail_if-eq-ok (leb_ℤ block.timestamp median) median_time checks_from_time h₅ in
      let (b, h₇) = fail_if-eq-ok bad_time previous_time _ h₆ in
      let (f, h₈) =
        fail_if-eq-ok (ltb_ℤ (maximum_timestamp now) block.timestamp) future_time _ h₇ in
      let (expected, d, h₉) =
        >>=-eq-ok (expected_difficulty_at prior_blocks block.height block.timestamp)
          checks_after_difficulty h₈ in
      let (same, root) = difficulty_checks expected h₉ in
      let (digits, root_ok, root_length) =
        hash_digits (hex_decode block.merkle_root)
          (sym (decode_hash_lem block.merkle_root) ∙ root) in
      record {
        rules_ok = (rules_iff block previous).0 (v, b);
        window_ok = ends_at-EndsWith prior_blocks previous (ground (arith, w));
        height_ok = ground (arith, n);
        link_ok = ground (arith, l, bytes_eq_iff block.previous_hash previous.hash);
        median = median;
        median_ok = m;
        median_is = median_time_past-IsMedian prior_blocks median m;
        after_median = before_of_leb median block.timestamp a;
        not_future = within_allowance now block.timestamp f;
        difficulty_ok = d ∙ ap ok (sym same);
        root = digits;
        root_ok = root_ok;
        root_length = root_length;
      }

  FieldsHold-validate_header_consensus_fields :
      block.timestamp ≤ℤ pos max_int64
      → FieldsHold block previous prior_blocks now
      → validate_header_consensus_fields block previous prior_blocks now ≡ ok tt
  FieldsHold-validate_header_consensus_fields fits h =
      let (version, monotonic) = (rules_iff block previous).1 h.rules_ok in
      let window = EndsWith-ends_at prior_blocks previous h.window_ok in
      validate_header_consensus_fields_step
      ∙ fail_if-pass bad_version block_version _ version
      ∙ fail_if-pass (not (ends_at prior_blocks previous)) prior_window _ (ap not window)
      ∙ fail_if-pass bad_height block_height checks_from_link (ground (arith, h.height_ok))
      ∙ fail_if-pass bad_link previous_hash _
          (ground (arith, (bytes_eq_iff block.previous_hash previous.hash).1 h.link_ok))
      ∙ ap (λ m. m >>= checks_after_median) h.median_ok
      ∙ fail_if-pass (leb_ℤ block.timestamp h.median) median_time checks_from_time
          (leb_of_before h.median block.timestamp h.after_median)
      ∙ fail_if-pass bad_time previous_time _ monotonic
      ∙ fail_if-pass (ltb_ℤ (maximum_timestamp now) block.timestamp) future_time _
          (allowance_within now block.timestamp fits h.not_future)
      ∙ ap (λ m. m >>= checks_after_difficulty) h.difficulty_ok
      ∙ fail_if-pass (not (eqb block.difficulty block.difficulty)) difficulty _ (ground arith)
      ∙ ap (λ t. fail_if (not t) merkle_root_format)
          (decode_hash_lem block.merkle_root
            ∙ digits_hash (hex_decode block.merkle_root) h.root h.root_ok h.root_length)

  -- For an int64 timestamp the checks of a header pass exactly when its fields fit the rules: the
  -- version of its height and, from the upgrade on, a timestamp after the previous one; a window that
  -- ends with the previous block; the next height and the link; a timestamp after the median of the last
  -- eleven and at most the allowance ahead of the clock, with no cut-off at the largest int64; the
  -- expected difficulty; and a Merkle root of 32 bytes.
  pub validate_header_consensus_fields_iff :
      block.timestamp ≤ℤ pos max_int64
      → (validate_header_consensus_fields block previous prior_blocks now ≡ ok tt)
        ↔ FieldsHold block previous prior_blocks now
  validate_header_consensus_fields_iff fits = (
    validate_header_consensus_fields-FieldsHold,
    FieldsHold-validate_header_consensus_fields fits,
  )
