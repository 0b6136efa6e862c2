-- ===== src/Ledger/Collector/Fit.antt =====
-- The collector of internal/ledger/reorg.go keeps the longest beginning of the disconnected
-- transactions, the oldest first, that its budget allows.
use entcoin.Base.{
  ℕ, zero, suc, ◌+◌, ◌≤◌, ◌<◌, ◌≡◌, inl, inr, refl, sym, ap, ◌∙◌, subst, true, false, ◌||◌, List,
  [], ◌∷◌, ◌++◌, length, arith, eqb, length-append, Bool-cases, All-append,
}
use entcoin.Core.Model.{Transaction}
use entcoin.Ledger.Collector.{
  Collector, total_size, is_over, newest_block, trim, added, collect, orphaned_from,
  orphaned_transactions,
}
use entcoin.Ledger.Collector.Trimming.{
  FitsBudget, IsFilled, Counted, IsLongest, total_size-append, orphaned_from-snoc, Trimming,
  under_lem, newest_block-Round,
}

-- What the whole loop gives.
abbrev Trimmed : Collector → List Transaction → Collector → Type 0
Trimmed c all c' =
    Counted c'
    × FitsBudget c.max_count c.max_bytes (orphaned_from c'.blocks)
    × IsLongest c.max_count c.max_bytes (orphaned_from c'.blocks) all
    × (c'.max_count ≡ c.max_count)
    × (c'.max_bytes ≡ c.max_bytes)

trim_step :
    (rounds : ℕ) (c : Collector)
    → is_over c ≡ true
    → trim (suc rounds) c ≡ trim rounds (newest_block c c.blocks)
unfolding trim
trim_step rounds c over = rw (over, trim)

trim_stop : (rounds : ℕ) (c : Collector) → is_over c ≡ false → trim rounds c ≡ c
unfolding trim
trim_stop zero c under = refl
trim_stop (suc rounds) c under = rw (under, trim)

nil_of_length : (l : List Transaction) → length l ≡ 0 → l ≡ []
nil_of_length [] h = refl
nil_of_length (t ∷ l) h = absurd (omega arith)

total_size_nil : total_size [] ≡ 0
unfolding total_size
total_size_nil = refl

zero_under : (c : Collector) → Counted c → c.count ≡ 0 → is_over c ≡ false
zero_under c h none =
    let empty = nil_of_length (orphaned_from c.blocks) (omega (arith, h.count_is)) in
    ground (arith, none, h.bytes_is, ap total_size empty, total_size_nil)

same_budget :
    (c d : Collector) (all : List Transaction) (e : Collector)
    → d.max_count ≡ c.max_count
    → d.max_bytes ≡ c.max_bytes
    → Trimmed d all e
    → Trimmed c all e
same_budget c d all e mc mb (counted, fits, longest, mc', mb') = (
  counted,
  subst (λ m. FitsBudget m c.max_bytes (orphaned_from e.blocks)) mc
      (subst (λ m. FitsBudget d.max_count m (orphaned_from e.blocks)) mb fits),
  subst (λ m. IsLongest m c.max_bytes (orphaned_from e.blocks) all) mc
      (subst (λ m. IsLongest d.max_count m (orphaned_from e.blocks) all) mb longest),
  mc' ∙ mc,
  mb' ∙ mb,
)

trim-Trimmed :
    (rounds : ℕ) (c : Collector) (all : List Transaction)
    → c.count ≤ rounds
    → Trimming c all
    → Trimmed c all (trim rounds c)
trim-Trimmed zero c all fuel h =
    let under = zero_under c h.counted (omega arith) in
    subst (Trimmed c all) (sym (trim_stop zero c under))
      (h.counted, under_lem c h.counted under, h.longest, refl, refl)
trim-Trimmed (suc rounds) c all fuel h = elim (Bool-cases (is_over c)) [
  | inl over ↦
      let (next, count, mc, mb) = newest_block-Round c c.blocks all refl h over in
      let done = trim-Trimmed rounds (newest_block c c.blocks) all (omega (arith, count)) next in
      subst (Trimmed c all) (sym (trim_step rounds c over)) (
        same_budget c (newest_block c c.blocks) all (trim rounds (newest_block c c.blocks)) mc mb
          done)
  | inr under ↦
      subst (Trimmed c all) (sym (trim_stop (suc rounds) c under))
        (h.counted, under_lem c h.counted under, h.longest, refl, refl)
]

added-Trimming :
    (c : Collector) (block : List Transaction)
    → Counted c
    → 0 < length block
    → Trimming (added c block) (block ++ orphaned_from c.blocks)
unfolding added
added-Trimming c block h filled =
    let joined = orphaned_from-snoc c.blocks block in
    record {
      counted = record {
        count_is =
            omega
              (arith, h.count_is, ap length joined, length-append block (orphaned_from c.blocks));
        bytes_is = omega (
          arith,
          h.bytes_is,
          ap total_size joined,
          total_size-append block (orphaned_from c.blocks),
        );
        filled = All-append IsFilled c.blocks (block ∷ []) h.filled (filled, tt);
      };
      longest = inl joined;
    }

added_budget :
    (c : Collector) (block : List Transaction)
    → ((added c block).count ≤ c.count + length block)
      × ((added c block).max_count ≡ c.max_count)
      × ((added c block).max_bytes ≡ c.max_bytes)
unfolding added
added_budget c block = (omega arith, refl, refl)

skip_test : (n : ℕ) (a b : ℕ) → 0 < n → 0 < a → 0 < b → eqb n 0 || (eqb a 0 || eqb b 0) ≡ false
skip_test n a b h k l = ground arith

collect_step :
    (c : Collector) (transactions : List Transaction)
    → eqb (length transactions) 0 || (eqb c.max_count 0 || eqb c.max_bytes 0) ≡ false
    → collect c transactions ≡ trim (c.count + length transactions) (added c transactions)
unfolding collect
collect_step c transactions e = rw e

-- With a positive budget the collector keeps, of the disconnected transactions with the oldest first,
-- the longest beginning that fits: it fits the limits on number and size, one transaction more would
-- not, and the counters stay exact.
pub collect-LongestFit :
    (c : Collector) (transactions : List Transaction)
    → Counted c
    → FitsBudget c.max_count c.max_bytes (orphaned_transactions c)
    → 0 < c.max_count
    → 0 < c.max_bytes
    → Counted (collect c transactions)
      × FitsBudget c.max_count c.max_bytes (orphaned_transactions (collect c transactions))
      × IsLongest c.max_count c.max_bytes
          (orphaned_transactions (collect c transactions))
          (transactions ++ orphaned_transactions c)
unfolding collect orphaned_transactions
collect-LongestFit c [] h fits mc mb = (h, fits, inl refl)
collect-LongestFit c (t ∷ ts) h fits mc mb =
    let (fuel, same_count, same_bytes) = added_budget c (t ∷ ts) in
    let (counted, fits', longest, _, _) =
      subst (Trimmed c ((t ∷ ts) ++ orphaned_from c.blocks))
        (sym (
          collect_step c (t ∷ ts)
            (skip_test (length (t ∷ ts)) c.max_count c.max_bytes (omega arith) mc mb)))
        (same_budget c (added c (t ∷ ts)) ((t ∷ ts) ++ orphaned_from c.blocks)
          (trim (c.count + length (t ∷ ts)) (added c (t ∷ ts))) same_count same_bytes
          (trim-Trimmed (c.count + length (t ∷ ts)) (added c (t ∷ ts))
            ((t ∷ ts) ++ orphaned_from c.blocks) fuel
            (added-Trimming c (t ∷ ts) h (omega arith)))) in
    (counted, fits', longest)
