-- ===== src/Core/Time/Median.antt =====
-- The median time of internal/core/block.go is the median of the timestamps of the last blocks.
use entcoin.Base.{
  ℕ, zero, suc, ◌+◌, ◌-◌, ◌/◌, ◌≤◌, ◌<◌, ◌≡◌, refl, sym, ap, ◌∙◌, subst, Bool, Option, none, some,
  List, [], ◌∷◌, map, length, take, drop, get_elem?, All, arith, Bool-cases, inl, inr, ok, or_fail,
  >>=-eq-ok, or_fail-eq-ok, ok_injective, err≢ok, index_out_of_range, if◌then◌else◌, length-drop,
}
use entcoin.Base.Int.{ℤ, ◌≤ℤ◌, ltb_ℤ, leb_ℤ}
use entcoin.Core.Model.{Block, median_time_blocks}
use entcoin.Core.Time.{
  timestamps_from, insert_sorted, sort, middle, median_time_at, median_time_past,
}

-- how many members pass a test
pub count : (ℤ → Bool) → List ℤ → ℕ
count test [] = 0
count test (t ∷ ts) = (if test t then 1 else 0) + count test ts

-- At most half of `ts` lies below `median`, and more than half at most at it.
abbrev pub IsMedian : ℤ → List ℤ → Type 0
IsMedian median ts =
    (count (λ t. ltb_ℤ t median) ts ≤ length ts / 2)
    × (length ts / 2 < count (λ t. leb_ℤ t median) ts)

-- the timestamps of the last eleven blocks
abbrev pub recent : List Block → List ℤ
recent blocks = map (λ b. b.timestamp) (drop (length blocks - median_time_blocks) blocks)

abbrev IsSorted : List ℤ → Type 0
IsSorted [] = Unit
IsSorted (t ∷ ts) = All (λ u. t ≤ℤ u) ts × IsSorted ts

count-insert_sorted :
    (test : ℤ → Bool) (t : ℤ) (ts : List ℤ) → count test (insert_sorted t ts) ≡ count test (t ∷ ts)
unfolding count insert_sorted
count-insert_sorted test t [] = refl
count-insert_sorted test t (u ∷ ts) = elim (Bool-cases (leb_ℤ t u)) [
  | inl first ↦ rw first refl
  | inr later ↦ rw later (omega (arith, count-insert_sorted test t ts))
]

count-sort : (test : ℤ → Bool) (ts : List ℤ) → count test (sort ts) ≡ count test ts
unfolding count sort
count-sort test [] = refl
count-sort test (t ∷ ts) =
    count-insert_sorted test t (sort ts)
    ∙ ap (λ n. (if test t then 1 else 0) + n) (count-sort test ts)

All-insert_sorted :
    (P : ℤ → Type 0) (t : ℤ) (ts : List ℤ) → P t → All P ts → All P (insert_sorted t ts)
unfolding insert_sorted
All-insert_sorted P t [] p h = (p, tt)
All-insert_sorted P t (u ∷ ts) p h = elim (Bool-cases (leb_ℤ t u)) [
  | inl first ↦ rw first (p, h)
  | inr later ↦ rw later (h.0, All-insert_sorted P t ts p h.1)
]

at_least : (t u : ℤ) (ts : List ℤ) → t ≤ℤ u → All (λ v. u ≤ℤ v) ts → All (λ v. t ≤ℤ v) ts
at_least t u [] h k = tt
at_least t u (v ∷ ts) h k = (omega (arith, h, k.0), at_least t u ts h k.1)

insert_sorted-IsSorted : (t : ℤ) (ts : List ℤ) → IsSorted ts → IsSorted (insert_sorted t ts)
unfolding insert_sorted
insert_sorted-IsSorted t [] h = (tt, tt)
insert_sorted-IsSorted t (u ∷ ts) h = elim (Bool-cases (leb_ℤ t u)) [
  | inl first ↦
      let below : t ≤ℤ u = ground (arith, first) in rw first ((below, at_least t u ts below h.0), h)
  | inr later ↦
      let above : u ≤ℤ t = ground (arith, later) in
      rw later (All-insert_sorted (λ v. u ≤ℤ v) t ts above h.0, insert_sorted-IsSorted t ts h.1)
]

sort-IsSorted : (ts : List ℤ) → IsSorted (sort ts)
unfolding sort
sort-IsSorted [] = tt
sort-IsSorted (t ∷ ts) = insert_sorted-IsSorted t (sort ts) (sort-IsSorted ts)

none_below : (m : ℤ) (ts : List ℤ) → All (λ t. m ≤ℤ t) ts → count (λ t. ltb_ℤ t m) ts ≡ 0
unfolding count
none_below m [] h = refl
none_below m (t ∷ ts) h = ground (arith, h.0, none_below m ts h.1)

same_value : (t m : ℤ) → some t ≡ some m → t ≡ m
same_value t m e = cc e

All-get_elem? :
    (P : ℤ → Type 0) (ts : List ℤ) (k : ℕ) (m : ℤ) → All P ts → get_elem? ts k ≡ some m → P m
All-get_elem? P [] k m h e = cc
All-get_elem? P (t ∷ ts) zero m h e = subst P (same_value t m e) h.0
All-get_elem? P (t ∷ ts) (suc k) m h e = All-get_elem? P ts k m h.1 e

sorted_place :
    (ts : List ℤ) (k : ℕ) (m : ℤ)
    → IsSorted ts
    → get_elem? ts k ≡ some m
    → (count (λ t. ltb_ℤ t m) ts ≤ k) × (k < count (λ t. leb_ℤ t m) ts)
unfolding count
sorted_place [] k m h e = cc
sorted_place (t ∷ ts) zero m h e =
    subst (λ u. (count (λ v. ltb_ℤ v u) (t ∷ ts) ≤ 0) × (0 < count (λ v. leb_ℤ v u) (t ∷ ts)))
      (same_value t m e) (ground (arith, none_below t ts h.0))
sorted_place (t ∷ ts) (suc k) m h e =
    let (few, many) = sorted_place ts k m h.1 e in
    let below : t ≤ℤ m = All-get_elem? (λ u. t ≤ℤ u) ts k m h.0 e in
    ground (arith, few, many, below)

found_of : (o : Option ℤ) (m : ℤ) → or_fail o index_out_of_range ≡ ok m → o ≡ some m
found_of none m e = cc
found_of (some t) m e = ap some (ok_injective e)

middle-IsMedian : (ts : List ℤ) (m : ℤ) → middle ts ≡ ok m → IsMedian m ts
unfolding middle
middle-IsMedian ts m e =
    let found = found_of (get_elem? (sort ts) (length ts / 2)) m e in
    let (few, many) = sorted_place (sort ts) (length ts / 2) m (sort-IsSorted ts) found in
    (
      subst (λ n. n ≤ length ts / 2) (count-sort (λ t. ltb_ℤ t m) ts) few,
      subst (λ n. length ts / 2 < n) (count-sort (λ t. leb_ℤ t m) ts) many,
    )

drop_step :
    (blocks : List Block) (index : ℕ) (block : Block)
    → get_elem? blocks index ≡ some block
    → drop index blocks ≡ block ∷ drop (index + 1) blocks
drop_step [] index block e = cc
drop_step (b ∷ blocks) zero block e = cc e
drop_step (b ∷ blocks) (suc index) block e =
    let same : suc (index + 1) ≡ suc index + 1 = omega arith in
    drop_step blocks index block e ∙ ap (λ n. block ∷ drop n (b ∷ blocks)) same

take_all : (n : ℕ) (blocks : List Block) → length blocks ≤ n → take n blocks ≡ blocks
take_all zero [] h = refl
take_all zero (b ∷ blocks) h = absurd (omega arith)
take_all (suc n) [] h = refl
take_all (suc n) (b ∷ blocks) h = ap (λ l. b ∷ l) (take_all n blocks (omega arith))

recent_lem :
    (b : Block) (blocks : List Block)
    → map
        (λ x. x.timestamp)
        (take
          (length blocks + 1 - (length blocks + 1 - median_time_blocks))
          (drop (length blocks + 1 - median_time_blocks) (b ∷ blocks)))
      ≡ recent (b ∷ blocks)
recent_lem b blocks =
    let same : length blocks + 1 ≡ length (b ∷ blocks) = omega arith in
    let start = length blocks + 1 - median_time_blocks in
    ap (map (λ x. x.timestamp)) (
      take_all (length blocks + 1 - start) (drop start (b ∷ blocks))
        (omega (arith, length-drop start (b ∷ blocks)))
      ∙ ap (λ n. drop (n - median_time_blocks) (b ∷ blocks)) same)

timestamps_from-take :
    (blocks : List Block) (index n : ℕ) {ts : List ℤ}
    → timestamps_from blocks index n ≡ ok ts
    → map (λ b. b.timestamp) (take n (drop index blocks)) ≡ ts
unfolding timestamps_from
timestamps_from-take blocks index zero e = ok_injective e
timestamps_from-take blocks index (suc n) e =
    let (block, found, e₁) = or_fail-eq-ok (get_elem? blocks index) _ _ e in
    let (rest, after, e₂) = >>=-eq-ok (timestamps_from blocks (index + 1) n) _ e₁ in
    ap (λ l. map (λ b. b.timestamp) (take (suc n) l)) (drop_step blocks index block found)
    ∙ ap (λ l. block.timestamp ∷ l) (timestamps_from-take blocks (index + 1) n after)
    ∙ ok_injective e₂

pub median_time_past-IsMedian :
    (blocks : List Block) (m : ℤ) → median_time_past blocks ≡ ok m → IsMedian m (recent blocks)
unfolding median_time_past median_time_at
median_time_past-IsMedian [] m e = absurd (err≢ok e)
median_time_past-IsMedian (b ∷ blocks) m e =
    let start = length blocks + 1 - median_time_blocks in
    let (ts, read, e₁) =
      >>=-eq-ok (timestamps_from (b ∷ blocks) start (length blocks + 1 - start)) _ e in
    subst (IsMedian m)
      (sym (timestamps_from-take (b ∷ blocks) start (length blocks + 1 - start) read)
        ∙ recent_lem b blocks)
      (middle-IsMedian ts m e₁)
