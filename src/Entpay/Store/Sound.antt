-- ===== src/Entpay/Store/Sound.antt =====
-- When the invoices and the delivery jobs of entpay/store.go agree, and that one row may change.
use entcoin.Base.{
  ℕ, ◌≤◌, ◌≡◌, inl, inr, refl, sym, ap, ◌∙◌, Bool, true, false, ◌||◌, Option, none, some, [], ◌∷◌,
  Bytes, arith, bytes_eq, bytes_eq_iff, bytes_Eq, Bool-cases,
}
use entcoin.Base.Map.{Map, get}
use entcoin.Entpay.Store.{InvoiceStatus, JobStatus, InvoiceRow, JobRow, Store, is_used, paid_by}

abbrev pub Invoices : Type 0
Invoices = Map Bytes InvoiceRow

abbrev pub Jobs : Type 0
Jobs = Map Bytes JobRow

-- A paid invoice has its transaction, and exactly a delivered one its delivery.
abbrev pub fits : InvoiceStatus → Option Bytes → Option Bytes → Bool
fits InvoiceStatus.opened none none = true
fits InvoiceStatus.submitted (some tx_id) none = true
fits InvoiceStatus.delivered (some tx_id) (some delivery) = true
fits _ _ _ = false

-- Only a paid invoice has a job, and they are delivered together.
abbrev pub agrees : InvoiceStatus → JobStatus → Bool
agrees InvoiceStatus.opened job = false
agrees InvoiceStatus.submitted JobStatus.delivered = false
agrees InvoiceStatus.submitted job = true
agrees InvoiceStatus.delivered JobStatus.delivered = true
agrees InvoiceStatus.delivered job = false

pub record Paid (invoices : Invoices) : Type 0 where
  pub fitting :
      (id : Bytes) (row : InvoiceRow)
      → get id invoices ≡ some row
      → fits row.status row.tx_id row.delivery ≡ true
  pub one_use :
      (a b tx_id : Bytes) (r s : InvoiceRow)
      → get a invoices ≡ some r
      → get b invoices ≡ some s
      → r.tx_id ≡ some tx_id
      → s.tx_id ≡ some tx_id
      → a ≡ b

-- The job under `id` fits its invoice.
abbrev pub Matched : ℕ → Invoices → Bytes → JobRow → Type 0
Matched max_attempts invoices id job =
    (row : InvoiceRow) × (get id invoices ≡ some row)
    × (agrees row.status job.status ≡ true)
    × (job.attempts ≤ max_attempts)

pub record Agreed (max_attempts : ℕ) (invoices : Invoices) (jobs : Jobs) : Type 0 where
  pub matched :
      (id : Bytes) (job : JobRow) → get id jobs ≡ some job → Matched max_attempts invoices id job
  pub finished :
      (id : Bytes) (row : InvoiceRow)
      → get id invoices ≡ some row
      → row.status ≡ InvoiceStatus.delivered
      → (job : JobRow) × (get id jobs ≡ some job) × (job.status ≡ JobStatus.delivered)

-- The payments are used once, and the jobs agree with the invoices.
pub record Sound (max_attempts : ℕ) (store : Store) : Type 0 where
  pub paid : Paid store.invoices
  pub agreed : Agreed max_attempts store.invoices store.delivery_jobs

same_some {ℓ} : {A : Type ℓ} (a b : A) → some a ≡ some b → a ≡ b
same_some a b e = cc e

pub no_row : (row : InvoiceRow) → none ≡ some row → ⊥
no_row row e = cc e

pub true-false : true ≡ false → ⊥
true-false e = cc e

or_tail : (a b : Bool) → (a || b) ≡ false → b ≡ false
or_tail a b h = ground (arith, h)

paid_by_lem : (tx_id : Bytes) (row : InvoiceRow) → row.tx_id ≡ some tx_id → paid_by tx_id row ≡ true
paid_by_lem tx_id row e = rw e ((bytes_eq_iff tx_id tx_id).1 refl)

used_head :
    (tx_id : Bytes) (row : InvoiceRow) (rest : Bool)
    → row.tx_id ≡ some tx_id
    → (paid_by tx_id row || rest) ≡ false
    → ⊥
used_head tx_id row rest e h = true-false (sym (ap (λ b. b || rest) (paid_by_lem tx_id row e)) ∙ h)

pub is_used-paid :
    (tx_id id : Bytes) (row : InvoiceRow) (invoices : Invoices)
    → is_used tx_id invoices ≡ false
    → get id invoices ≡ some row
    → row.tx_id ≡ some tx_id
    → ⊥
unfolding is_used get
is_used-paid tx_id id row [] unused found e = no_row row found
is_used-paid tx_id id row ((j, first) ∷ rest) unused found e = elim (Bool-cases (bytes_eq id j)) [
  | inl same ↦
      let first_is : first ≡ row = same_some first row (sym (rw same refl) ∙ found) in
      let paid : first.tx_id ≡ some tx_id = ap (λ r. r.tx_id) first_is ∙ e in
      absurd (used_head tx_id first (is_used tx_id rest) paid unused)
  | inr other ↦
      is_used-paid tx_id id row rest (or_tail (paid_by tx_id first) (is_used tx_id rest) unused)
        (sym (rw other refl) ∙ found) e
]
