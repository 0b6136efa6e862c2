-- ===== src/Ledger/Collector/Trimming.antt =====
-- One round of the loop of the collector of internal/ledger/reorg.go: the newest transaction goes, and
-- what has gone did not fit.
use entcoin.Base.{
  ℕ, ◌+◌, ◌≤◌, ◌<◌, ◌≡◌, ◌⊎◌, inl, inr, refl, sym, ap, ◌∙◌, subst, true, false, List, [], ◌∷◌, ◌++◌,
  length, arith, append_assoc, append-nil, length-append, All,
}
use entcoin.Core.Model.{Transaction}
use entcoin.Core.Transaction.{encoded_size}
use entcoin.Ledger.Collector.{
  Collector, new_collector, total_size, split_last, put_front, is_over, drop_newest, newest_block,
  snoc, orphaned_from,
}

abbrev pub FitsBudget : ℕ → ℕ → List Transaction → Type 0
FitsBudget max_count max_bytes transactions =
    (length transactions ≤ max_count) × (total_size transactions ≤ max_bytes)

abbrev pub IsFilled : List Transaction → Type 0
IsFilled block = 0 < length block

-- The counters are those of the blocks, and no block is empty.
pub record Counted (c : Collector) : Type 0 where
  pub count_is : c.count ≡ length (orphaned_from c.blocks)
  pub bytes_is : c.bytes ≡ total_size (orphaned_from c.blocks)
  pub filled : All IsFilled c.blocks

-- `kept` begins `all`, and is not shorter than the budget makes it: one transaction more passes it.
abbrev pub IsLongest : ℕ → ℕ → List Transaction → List Transaction → Type 0
IsLongest max_count max_bytes kept all =
    (kept ≡ all)
    ⊎ ((next : Transaction) × (rest : List Transaction) × (kept ++ next ∷ rest ≡ all)
        × (FitsBudget max_count max_bytes (kept ++ next ∷ []) → ⊥))

pub total_size-append :
    (xs ys : List Transaction) → total_size (xs ++ ys) ≡ total_size xs + total_size ys
unfolding total_size
total_size-append [] ys = omega arith
total_size-append (x ∷ xs) ys = omega (arith, total_size-append xs ys)

split_last_lem :
    (first : Transaction) (more : List Transaction)
    → (split_last first more).0 ++ (split_last first more).1 ∷ [] ≡ first ∷ more
unfolding split_last
split_last_lem first [] = refl
split_last_lem first (next ∷ rest) = ap (λ l. first ∷ l) (split_last_lem next rest)

orphaned_from-put_front :
    (front : List Transaction) (rest : List (List Transaction))
    → orphaned_from (put_front front rest) ≡ orphaned_from rest ++ front
unfolding orphaned_from
orphaned_from-put_front [] rest = sym (append-nil (orphaned_from rest))
orphaned_from-put_front (t ∷ front) rest = refl

put_front-IsFilled :
    (front : List Transaction) (rest : List (List Transaction))
    → All IsFilled rest
    → All IsFilled (put_front front rest)
put_front-IsFilled [] rest h = h
put_front-IsFilled (t ∷ front) rest h = (omega arith, h)

pub orphaned_from-snoc :
    (blocks : List (List Transaction)) (block : List Transaction)
    → orphaned_from (snoc blocks block) ≡ block ++ orphaned_from blocks
unfolding orphaned_from
orphaned_from-snoc [] block = sym (append-nil block)
orphaned_from-snoc (b ∷ blocks) block =
    ap (λ l. l ++ b) (orphaned_from-snoc blocks block) ∙ append_assoc block (orphaned_from blocks) b

orphaned_from_cons :
    (block : List Transaction) (rest : List (List Transaction))
    → orphaned_from (block ∷ rest) ≡ orphaned_from rest ++ block
unfolding orphaned_from
orphaned_from_cons block rest = refl

total_size_snoc :
    (l : List Transaction) (t : Transaction)
    → total_size (l ++ t ∷ []) ≡ total_size l + encoded_size t
unfolding total_size
total_size_snoc l t = omega (arith, total_size-append l (t ∷ []))

length_snoc : (l : List Transaction) (t : Transaction) → length (l ++ t ∷ []) ≡ length l + 1
length_snoc l t = omega (arith, length-append l (t ∷ []))

-- The newest block gives its last transaction.
split_joined :
    (front : List Transaction) (last : Transaction) (block : List Transaction)
    (rest : List (List Transaction))
    → front ++ last ∷ [] ≡ block
    → orphaned_from (put_front front rest) ++ last ∷ [] ≡ orphaned_from (block ∷ rest)
split_joined front last block rest e =
    ap (λ l. l ++ last ∷ []) (orphaned_from-put_front front rest)
    ∙ append_assoc (orphaned_from rest) front (last ∷ [])
    ∙ ap (λ l. orphaned_from rest ++ l) e
    ∙ sym (orphaned_from_cons block rest)

drop_newest-Counted :
    (c : Collector) (front : List Transaction) (last : Transaction) (rest : List (List Transaction))
    → Counted c
    → All IsFilled rest
    → orphaned_from (put_front front rest) ++ last ∷ [] ≡ orphaned_from c.blocks
    → Counted (drop_newest c (front, last) rest)
unfolding drop_newest
drop_newest-Counted c front last rest h filled e = record {
  count_is =
      omega
        (arith, h.count_is, ap length e, length_snoc (orphaned_from (put_front front rest)) last);
  bytes_is = omega (
    arith,
    h.bytes_is,
    ap total_size e,
    total_size_snoc (orphaned_from (put_front front rest)) last,
  );
  filled = put_front-IsFilled front rest filled;
}

-- Where the loop stands: what is left begins `all`, and what has gone did not fit.
pub record Trimming (c : Collector) (all : List Transaction) : Type 0 where
  pub counted : Counted c
  pub longest : IsLongest c.max_count c.max_bytes (orphaned_from c.blocks) all

over_lem :
    (c : Collector)
    → Counted c
    → is_over c ≡ true
    → FitsBudget c.max_count c.max_bytes (orphaned_from c.blocks)
    → ⊥
over_lem c h over fits = ground (arith, h.count_is, h.bytes_is)

pub under_lem :
    (c : Collector)
    → Counted c
    → is_over c ≡ false
    → FitsBudget c.max_count c.max_bytes (orphaned_from c.blocks)
under_lem c h under = ground (arith, h.count_is, h.bytes_is)

extend-IsLongest :
    (mc mb : ℕ) (kept : List Transaction) (last : Transaction) (joined all : List Transaction)
    → kept ++ last ∷ [] ≡ joined
    → (FitsBudget mc mb joined → ⊥)
    → IsLongest mc mb joined all
    → IsLongest mc mb kept all
extend-IsLongest mc mb kept last joined all e over (inl same) =
    inr (last, [], e ∙ same, λ fits. over (subst (FitsBudget mc mb) e fits))
extend-IsLongest mc mb kept last joined all e over (inr (next, rest, whole, big)) = inr (
  last,
  next ∷ rest,
  sym (append_assoc kept (last ∷ []) (next ∷ rest)) ∙ ap (λ l. l ++ next ∷ rest) e ∙ whole,
  λ fits. over (subst (FitsBudget mc mb) e fits),
)

drop_newest-Trimming :
    (c : Collector) (front : List Transaction) (last : Transaction) (rest : List (List Transaction))
    (all : List Transaction)
    → Trimming c all
    → All IsFilled rest
    → orphaned_from (put_front front rest) ++ last ∷ [] ≡ orphaned_from c.blocks
    → is_over c ≡ true
    → Trimming (drop_newest c (front, last) rest) all
unfolding drop_newest
drop_newest-Trimming c front last rest all h filled e over = record {
  counted = drop_newest-Counted c front last rest h.counted filled e;
  longest =
      extend-IsLongest c.max_count c.max_bytes (orphaned_from (put_front front rest)) last
        (orphaned_from c.blocks) all e (over_lem c h.counted over) h.longest;
}

empty_fits : (mc mb : ℕ) → FitsBudget mc mb (orphaned_from [])
unfolding orphaned_from total_size
empty_fits mc mb = omega arith

filled_count :
    (block : List Transaction) (rest : List (List Transaction))
    → 0 < length block
    → 0 < length (orphaned_from (block ∷ rest))
unfolding orphaned_from
filled_count block rest h = omega (arith, length-append (orphaned_from rest) block)

-- The budget and the loop's measure, from one round to the next.
abbrev pub Round : Collector → List Transaction → Collector → Type 0
Round c all c' =
    Trimming c' all
    × (c'.count + 1 ≡ c.count)
    × (c'.max_count ≡ c.max_count)
    × (c'.max_bytes ≡ c.max_bytes)

drop_newest_count :
    (c : Collector) (front : List Transaction) (last : Transaction) (rest : List (List Transaction))
    → 0 < c.count
    → ((drop_newest c (front, last) rest).count + 1 ≡ c.count)
      × ((drop_newest c (front, last) rest).max_count ≡ c.max_count)
      × ((drop_newest c (front, last) rest).max_bytes ≡ c.max_bytes)
unfolding drop_newest
drop_newest_count c front last rest h = (omega arith, refl, refl)

pub newest_block-Round :
    (c : Collector) (blocks : List (List Transaction)) (all : List Transaction)
    → c.blocks ≡ blocks
    → Trimming c all
    → is_over c ≡ true
    → Round c all (newest_block c blocks)
unfolding newest_block drop_newest
newest_block-Round c [] all shape h over = absurd (
    over_lem c h.counted over (
      subst (λ b. FitsBudget c.max_count c.max_bytes (orphaned_from b)) (sym shape)
        (empty_fits c.max_count c.max_bytes)))
newest_block-Round c ([] ∷ rest) all shape h over =
    absurd (omega (arith, (subst (All IsFilled) shape h.counted.filled).0))
newest_block-Round c ((first ∷ more) ∷ rest) all shape h over =
    let joined =
      split_joined (split_last first more).0 (split_last first more).1 (first ∷ more) rest
        (split_last_lem first more)
      ∙ sym (ap orphaned_from shape) in
    let counts = drop_newest_count c (split_last first more).0 (split_last first more).1 rest (
      omega (
        arith,
        h.counted.count_is,
        ap (λ b. length (orphaned_from b)) shape,
        filled_count (first ∷ more) rest (omega arith),
      )) in
    (
      drop_newest-Trimming c (split_last first more).0 (split_last first more).1 rest all h
          (subst (All IsFilled) shape h.counted.filled).1 joined over,
      counts.0,
      counts.1,
      counts.2,
    )

pub new_collector-Counted : (max_count max_bytes : ℕ) → Counted (new_collector max_count max_bytes)
unfolding new_collector orphaned_from total_size
new_collector-Counted max_count max_bytes = record { count_is = refl; bytes_is = refl; filled = tt }
