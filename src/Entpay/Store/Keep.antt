-- ===== src/Entpay/Store/Keep.antt =====
-- A row of the store of entpay/store.go may change as long as it fits.
use entcoin.Base.{
  ℕ, ◌≤◌, ◌≡◌, ◌⊎◌, inl, inr, refl, sym, ap, ◌∙◌, subst, true, false, some, Bytes, bytes_eq,
  bytes_eq_iff, bytes_Eq, Bool-cases,
}
use entcoin.Base.Map.{get, put, get-put_self, get-put_ne, put-found}
use entcoin.Entpay.Store.{InvoiceStatus, JobStatus, InvoiceRow, JobRow, is_used}
use entcoin.Entpay.Store.Sound.{Invoices, Jobs, fits, agrees, Paid, Agreed, is_used-paid}

own_payment :
    (id b tx_id : Bytes) (row s : InvoiceRow) (invoices : Invoices)
    → Paid invoices
    → ((tx_id : Bytes)
        → row.tx_id ≡ some tx_id
        → ((old : InvoiceRow) × (get id invoices ≡ some old) × (old.tx_id ≡ some tx_id))
          ⊎ (is_used tx_id invoices ≡ false))
    → get b invoices ≡ some s
    → row.tx_id ≡ some tx_id
    → s.tx_id ≡ some tx_id
    → id ≡ b
own_payment id b tx_id row s invoices h source found paid paid' = elim (source tx_id paid) [
  | inl (old, there, was) ↦ h.one_use id b tx_id old s there found was paid'
  | inr unused ↦ absurd (is_used-paid tx_id b s invoices unused found paid')
]

-- An invoice gets a payment that was its own or nobody's.
pub put-Paid :
    (id : Bytes) (row : InvoiceRow) (invoices : Invoices)
    → Paid invoices
    → fits row.status row.tx_id row.delivery ≡ true
    → ((tx_id : Bytes)
        → row.tx_id ≡ some tx_id
        → ((old : InvoiceRow) × (get id invoices ≡ some old) × (old.tx_id ≡ some tx_id))
          ⊎ (is_used tx_id invoices ≡ false))
    → Paid (put id row invoices)
put-Paid id row invoices h fit source = record {
  fitting = λ a r found. elim (put-found id a row r invoices found) [
    | inl (key, same) ↦ subst (λ s. fits s.status s.tx_id s.delivery ≡ true) (sym same) fit
    | inr (other, found') ↦ h.fitting a r found'
  ];
  one_use = λ a b tx_id r s fa fb pa pb. elim (put-found id a row r invoices fa) [
    | inl (key, same) ↦ elim (put-found id b row s invoices fb) [
      | inl (key', same') ↦ sym key ∙ key'
      | inr (other, fb') ↦
          sym key
          ∙ own_payment id b tx_id row s invoices h source fb' (sym (ap (λ x. x.tx_id) same) ∙ pa)
              pb
    ]
    | inr (other, fa') ↦ elim (put-found id b row s invoices fb) [
      | inl (key', same') ↦
          sym (
            own_payment id a tx_id row r invoices h source fa' (sym (ap (λ x. x.tx_id) same') ∙ pb)
              pa)
          ∙ key'
      | inr (other', fb') ↦ h.one_use a b tx_id r s fa' fb' pa pb
    ]
  ];
}

agrees-delivered :
    (s : InvoiceStatus) (j : JobStatus)
    → s ≡ InvoiceStatus.delivered
    → agrees s j ≡ true
    → j ≡ JobStatus.delivered
agrees-delivered s JobStatus.delivered e h = refl
agrees-delivered s JobStatus.queued e h = cc
agrees-delivered s JobStatus.processing e h = cc
agrees-delivered s JobStatus.failed e h = cc
agrees-delivered s JobStatus.permanent e h = cc

same_row : (r s : InvoiceRow) → some r ≡ some s → r ≡ s
same_row r s e = cc e

module _ (max_attempts : ℕ) (invoices : Invoices) (jobs : Jobs) where
  -- A job changes beside its invoice.
  pub put-Agreed :
      (id : Bytes) (row : InvoiceRow) (job : JobRow)
      → Agreed max_attempts invoices jobs
      → get id invoices ≡ some row
      → agrees row.status job.status ≡ true
      → job.attempts ≤ max_attempts
      → Agreed max_attempts invoices (put id job jobs)
  put-Agreed id row job h found fit few = record {
    matched = λ a j found'. elim (put-found id a job j jobs found') [
      | inl (key, same) ↦ (
        row,
        sym (ap (λ k. get k invoices) key) ∙ found,
        subst (λ x. agrees row.status x.status ≡ true) (sym same) fit,
        subst (λ x. x.attempts ≤ max_attempts) (sym same) few,
      )
      | inr (other, there) ↦ h.matched a j there
    ];
    finished = λ a r there e. elim (Bool-cases (bytes_eq id a)) [
      | inr other ↦
          let (j, found', done) = h.finished a r there e in
          (j, get-put_ne id a job jobs other ∙ found', done)
      | inl same ↦
          let key = (bytes_eq_iff id a).0 same in
          let row_is = same_row row r (sym found ∙ ap (λ k. get k invoices) key ∙ there) in
          (
            job,
            sym (ap (λ k. get k (put id job jobs)) key) ∙ get-put_self id job jobs,
            agrees-delivered row.status job.status (ap (λ x. x.status) row_is ∙ e) fit,
          )
    ];
  }

  -- An invoice without a job changes.
  pub put_invoice-Agreed :
      (id : Bytes) (row : InvoiceRow)
      → Agreed max_attempts invoices jobs
      → ((job : JobRow) → get id jobs ≡ some job → ⊥)
      → (row.status ≡ InvoiceStatus.delivered → ⊥)
      → Agreed max_attempts (put id row invoices) jobs
  put_invoice-Agreed id row h no_job unpaid = record {
    matched = λ a j found. elim (Bool-cases (bytes_eq id a)) [
      | inr other ↦
          let (r, there, fit, few) = h.matched a j found in
          (r, get-put_ne id a row invoices other ∙ there, fit, few)
      | inl same ↦ absurd (no_job j (ap (λ k. get k jobs) ((bytes_eq_iff id a).0 same) ∙ found))
    ];
    finished = λ a r found e. elim (put-found id a row r invoices found) [
      | inl (key, same) ↦ absurd (unpaid (sym (ap (λ x. x.status) same) ∙ e))
      | inr (other, there) ↦ h.finished a r there e
    ];
  }

  -- An invoice and its job change together.
  pub put_both-Agreed :
      (id : Bytes) (row : InvoiceRow) (job : JobRow)
      → Agreed max_attempts invoices jobs
      → agrees row.status job.status ≡ true
      → job.attempts ≤ max_attempts
      → Agreed max_attempts (put id row invoices) (put id job jobs)
  put_both-Agreed id row job h fit few = record {
    matched = λ a j found. elim (put-found id a job j jobs found) [
      | inl (key, same) ↦ (
        row,
        sym (ap (λ k. get k (put id row invoices)) key) ∙ get-put_self id row invoices,
        subst (λ x. agrees row.status x.status ≡ true) (sym same) fit,
        subst (λ x. x.attempts ≤ max_attempts) (sym same) few,
      )
      | inr (other, there) ↦
          let (r, there', fit', few') = h.matched a j there in
          (r, get-put_ne id a row invoices other ∙ there', fit', few')
    ];
    finished = λ a r found e. elim (put-found id a row r invoices found) [
      | inl (key, same) ↦ (
        job,
        sym (ap (λ k. get k (put id job jobs)) key) ∙ get-put_self id job jobs,
        agrees-delivered row.status job.status (sym (ap (λ x. x.status) same) ∙ e) fit,
      )
      | inr (other, there) ↦
          let (j, there', done) = h.finished a r there e in
          (j, get-put_ne id a job jobs other ∙ there', done)
    ];
  }
