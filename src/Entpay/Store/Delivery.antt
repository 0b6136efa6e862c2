-- ===== src/Entpay/Store/Delivery.antt =====
-- A paid invoice reaches its delivery by two operations of entpay/store.go.
use entcoin.Base.{
  ℕ, ◌≡◌, ◌<◌, refl, ap, ◌∙◌, Bool, true, false, none, some, Bytes, bytes_Eq, Result, ok, or_fail,
  ◌>>=◌, invoice_conflict, lt→ltb,
}
use entcoin.Base.Map.{get, put, get-put_self, get-contains-none}
use entcoin.Entpay.Store.{
  InvoiceStatus, JobStatus, InvoiceRow, JobRow, Store, new_job, start_job, mark_delivered,
  finish_job, queue_found, queue_job, can_acquire, acquire_job, deliver_job,
}

abbrev started : Store → Bytes → ℕ → Store
unfolding put
started store id now = record store {
  delivery_jobs = put id (start_job (new_job now) now) (put id (new_job now) store.delivery_jobs);
}

abbrev pub finished : Store → Bytes → InvoiceRow → JobRow → ℕ → Bytes → Store
unfolding put
finished store id row job delivered_at delivery = record {
  invoices = put id (mark_delivered delivered_at delivery row) store.invoices;
  delivery_jobs = put id (finish_job delivered_at job) store.delivery_jobs;
}

queue_new :
    (store : Store) (id : Bytes) (now : ℕ) (row : InvoiceRow)
    → get id store.invoices ≡ some row
    → row.status ≡ InvoiceStatus.submitted
    → get id store.delivery_jobs ≡ none
    → queue_job store id now ≡ put id (new_job now) store.delivery_jobs
unfolding queue_job queue_found
queue_new store id now row found paid free =
    rw (get-contains-none id store.delivery_jobs free, found, paid) refl

can_acquire_new :
    (now stale retry max_attempts : ℕ)
    → 0 < max_attempts
    → can_acquire (new_job now) now stale retry max_attempts ≡ true
unfolding can_acquire
can_acquire_new now stale retry max_attempts h = rw (lt→ltb 0 max_attempts h) refl

abbrev acquired : Store → Bytes → ℕ → JobRow → Bool → Result (JobRow × Bool × Store)
unfolding queue_job put
acquired store id now job able = elim able [
  | true ↦ ok (
    start_job job now,
    true,
    record store { delivery_jobs = put id (start_job job now) (queue_job store id now) },
  )
  | false ↦ ok (job, false, record store { delivery_jobs = queue_job store id now })
]

acquire_known :
    (store : Store) (id : Bytes) (now stale retry max_attempts : ℕ) (job : JobRow)
    → get id (queue_job store id now) ≡ some job
    → can_acquire job now stale retry max_attempts ≡ true
    → acquire_job store id now stale retry max_attempts ≡ acquired store id now job true
unfolding acquire_job acquired
acquire_known store id now stale retry max_attempts job found able =
    ap
      (λ o. or_fail o invoice_conflict >>= λ j.
        acquired store id now j (can_acquire j now stale retry max_attempts))
      found
    ∙ ap (acquired store id now job) able

acquire_new :
    (store : Store) (id : Bytes) (now stale retry max_attempts : ℕ) (row : InvoiceRow)
    → get id store.invoices ≡ some row
    → row.status ≡ InvoiceStatus.submitted
    → get id store.delivery_jobs ≡ none
    → 0 < max_attempts
    → acquire_job store id now stale retry max_attempts
      ≡ ok (start_job (new_job now) now, true, started store id now)
unfolding acquired started
acquire_new store id now stale retry max_attempts row found paid free h =
    let queued = queue_new store id now row found paid free in
    acquire_known store id now stale retry max_attempts (new_job now)
      (ap (get id) queued ∙ get-put_self id (new_job now) store.delivery_jobs)
      (can_acquire_new now stale retry max_attempts h)
    ∙ ap
        (λ jobs. ok (
          start_job (new_job now) now,
          true,
          record store { delivery_jobs = put id (start_job (new_job now) now) jobs },
        ))
        queued

deliver_running :
    (store : Store) (id : Bytes) (row : InvoiceRow) (job : JobRow) (delivered_at : ℕ)
    (delivery : Bytes)
    → get id store.invoices ≡ some row
    → row.status ≡ InvoiceStatus.submitted
    → get id store.delivery_jobs ≡ some job
    → job.status ≡ JobStatus.processing
    → deliver_job store id delivered_at delivery
      ≡ ok (finished store id row job delivered_at delivery)
unfolding deliver_job finished
deliver_running store id row job delivered_at delivery found paid there running =
    rw (found, paid, there, running) refl

-- When an invoice is submitted and has no job, and attempts are allowed, its job is acquired, whatever
-- the clock and the delays, and the delivery is then stored with the invoice, which is delivered.
pub acquire_job-deliver_job :
    (store : Store) (id : Bytes) (now stale retry max_attempts : ℕ) (row : InvoiceRow)
    (delivered_at : ℕ) (delivery : Bytes)
    → get id store.invoices ≡ some row
    → row.status ≡ InvoiceStatus.submitted
    → get id store.delivery_jobs ≡ none
    → 0 < max_attempts
    → (job : JobRow) × (middle : Store) × (after : Store) × (acquire_job store id now stale retry
          max_attempts
        ≡ ok (job, true, middle))
      × (deliver_job middle id delivered_at delivery ≡ ok after)
      × (get id after.invoices ≡ some (mark_delivered delivered_at delivery row))
unfolding started finished
acquire_job-deliver_job store id now stale retry max_attempts row delivered_at delivery found paid
      free h =
    let job = start_job (new_job now) now in
    (
      job,
      started store id now,
      finished (started store id now) id row job delivered_at delivery,
      acquire_new store id now stale retry max_attempts row found paid free h,
      deliver_running (started store id now) id row job delivered_at delivery found paid
          (get-put_self id job (put id (new_job now) store.delivery_jobs)) refl,
      get-put_self id (mark_delivered delivered_at delivery row) store.invoices,
    )
