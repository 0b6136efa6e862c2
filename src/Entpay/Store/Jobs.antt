-- ===== src/Entpay/Store/Jobs.antt =====
-- The operations on delivery jobs of entpay/store.go keep the store sound.
use entcoin.Base.{
  ℕ, ◌<◌, ◌≡◌, inl, inr, refl, sym, ap, ◌∙◌, subst, Bool, true, false, ◌&&◌, not, Option, none,
  some, Bytes, arith, bytes_Eq, Bool-cases, Result, ok, ltb, if◌then◌else◌, fail_if-eq-ok,
  or_fail-eq-ok, ok_injective,
}
use entcoin.Base.Map.{get, put, contains}
use entcoin.Entpay.Store.{
  InvoiceStatus, JobStatus, InvoiceRow, JobRow, Store, is_submitted, is_processing, new_job,
  start_job, can_acquire, mark_delivered, finish_job, queue_job, acquire_job, fail_job, deliver_job,
  queue_found, due_again,
}
use entcoin.Entpay.Store.Sound.{Agreed, Sound, fits, agrees}
use entcoin.Entpay.Store.Keep.{put-Paid, put-Agreed, put_both-Agreed}
use entcoin.Entpay.Store.Steps.{is_submitted_lem, not-of_false, submitted-paid}

-- A job that is not delivered has a submitted invoice.
abbrev is_live : JobStatus → Bool
is_live JobStatus.delivered = false
is_live _ = true

live_invoice :
    (s : InvoiceStatus) (j next : JobStatus)
    → agrees s j ≡ true
    → is_live j ≡ true
    → is_live next ≡ true
    → agrees s next ≡ true
live_invoice InvoiceStatus.opened j next fit live live' = fit
live_invoice InvoiceStatus.delivered JobStatus.delivered next fit live live' = cc
live_invoice InvoiceStatus.delivered JobStatus.queued next fit live live' = cc
live_invoice InvoiceStatus.delivered JobStatus.processing next fit live live' = cc
live_invoice InvoiceStatus.delivered JobStatus.failed next fit live live' = cc
live_invoice InvoiceStatus.delivered JobStatus.permanent next fit live live' = cc
live_invoice InvoiceStatus.submitted j JobStatus.delivered fit live live' = cc
live_invoice InvoiceStatus.submitted j JobStatus.queued fit live live' = refl
live_invoice InvoiceStatus.submitted j JobStatus.processing fit live live' = refl
live_invoice InvoiceStatus.submitted j JobStatus.failed fit live live' = refl
live_invoice InvoiceStatus.submitted j JobStatus.permanent fit live live' = refl

is_processing-live : (j : JobStatus) → is_processing j ≡ true → is_live j ≡ true
is_processing-live JobStatus.processing h = refl
is_processing-live JobStatus.queued h = cc
is_processing-live JobStatus.failed h = cc
is_processing-live JobStatus.permanent h = cc
is_processing-live JobStatus.delivered h = cc

left_true : (a b : Bool) → (a && b) ≡ true → (a ≡ true) × (b ≡ true)
left_true a b h = ground (arith, h)

able_live : (j : JobStatus) (retry stale : Bool) → due_again j retry stale ≡ true → is_live j ≡ true
able_live JobStatus.queued retry stale h = refl
able_live JobStatus.processing retry stale h = refl
able_live JobStatus.failed retry stale h = refl
able_live JobStatus.permanent retry stale h = refl
able_live JobStatus.delivered retry stale h = h

can_acquire_lem :
    (job : JobRow) (now stale retry max_attempts : ℕ)
    → can_acquire job now stale retry max_attempts ≡ true
    → (job.attempts < max_attempts) × (is_live job.status ≡ true)
unfolding can_acquire
can_acquire_lem job now stale retry max_attempts h =
    let (few, able) = left_true (ltb job.attempts max_attempts) _ h in
    (ground (arith, few), able_live job.status _ _ able)

submitted_agrees : (s : InvoiceStatus) → is_submitted s ≡ true → agrees s JobStatus.queued ≡ true
submitted_agrees InvoiceStatus.submitted h = refl
submitted_agrees InvoiceStatus.opened h = cc
submitted_agrees InvoiceStatus.delivered h = cc

failed_live : (b : Bool) → is_live (if b then JobStatus.permanent else JobStatus.failed) ≡ true
failed_live true = refl
failed_live false = refl

delivered_agrees : agrees InvoiceStatus.delivered JobStatus.delivered ≡ true
delivered_agrees = refl

module _ (max_attempts : ℕ) where
  queue_choice :
      (store : Store) (id : Bytes) (now : ℕ) (row : InvoiceRow)
      → Sound max_attempts store
      → get id store.invoices ≡ some row
      → (submitted : Bool) → is_submitted row.status ≡ submitted
      → Agreed max_attempts store.invoices
          (if submitted then put id (new_job now) store.delivery_jobs else store.delivery_jobs)
  queue_choice store id now row h found true e =
      put-Agreed max_attempts store.invoices store.delivery_jobs id row (new_job now) h.agreed found
        (submitted_agrees row.status e) (omega arith)
  queue_choice store id now row h found false e = h.agreed

  queue_row :
      (store : Store) (id : Bytes) (now : ℕ)
      → Sound max_attempts store
      → (found : Option InvoiceRow) → get id store.invoices ≡ found
      → Agreed max_attempts store.invoices (queue_found store id now found)
  unfolding queue_found
  queue_row store id now h none e = h.agreed
  queue_row store id now h (some row) e =
      queue_choice store id now row h e (is_submitted row.status) refl

  queue_known :
      (store : Store) (id : Bytes) (now : ℕ)
      → Sound max_attempts store
      → (known : Bool)
      → Agreed max_attempts store.invoices
          (if known then store.delivery_jobs else queue_found store id now (get id store.invoices))
  queue_known store id now h true = h.agreed
  queue_known store id now h false = queue_row store id now h (get id store.invoices) refl

  queue_job-Agreed :
      (store : Store) (id : Bytes) (now : ℕ)
      → Sound max_attempts store
      → Agreed max_attempts store.invoices (queue_job store id now)
  unfolding queue_job
  queue_job-Agreed store id now h = queue_known store id now h (contains id store.delivery_jobs)

  pub acquire_job-Sound :
      (store : Store) (id : Bytes) (now stale retry : ℕ) {result : JobRow × Bool × Store}
      → Sound max_attempts store
      → acquire_job store id now stale retry max_attempts ≡ ok result
      → Sound max_attempts result.2
  unfolding acquire_job
  acquire_job-Sound store id now stale retry h e =
      let jobs = queue_job store id now in
      let agreed = queue_job-Agreed store id now h in
      let (job, found, e₁) = or_fail-eq-ok (get id jobs) _ _ e in
      let branch : Bool → Result (JobRow × Bool × Store) = λ b. elim b [
        | true ↦ ok (
          start_job job now,
          true,
          record store { delivery_jobs = put id (start_job job now) jobs },
        )
        | false ↦ ok (job, false, record store { delivery_jobs = jobs })
      ] in
      elim (Bool-cases (can_acquire job now stale retry max_attempts)) [
        | inr other ↦
            subst (λ r. Sound max_attempts r.2) (ok_injective (sym (ap branch other) ∙ e₁))
              (record { paid = h.paid; agreed = agreed })
        | inl able ↦
            let (few, live) = can_acquire_lem job now stale retry max_attempts able in
            let (row, there, fit, _) = agreed.matched id job found in
            subst (λ r. Sound max_attempts r.2) (ok_injective (sym (ap branch able) ∙ e₁))
              (record {
                paid = h.paid;
                agreed =
                    put-Agreed max_attempts store.invoices jobs id row (start_job job now) agreed
                      there (live_invoice row.status job.status JobStatus.processing fit live refl)
                      (omega (arith, few));
              })
      ]

  pub fail_job-Sound :
      (store : Store) (id : Bytes) (is_permanent : Bool) (now : ℕ) (failure : Bytes) {after : Store}
      → Sound max_attempts store
      → fail_job store id is_permanent now failure ≡ ok after
      → Sound max_attempts after
  unfolding fail_job
  fail_job-Sound store id is_permanent now failure h e =
      let (job, found, e₁) = or_fail-eq-ok (get id store.delivery_jobs) _ _ e in
      let (running, e₂) = fail_if-eq-ok (not (is_processing job.status)) _ _ e₁ in
      let (row, there, fit, few) = h.agreed.matched id job found in
      subst (Sound max_attempts) (ok_injective e₂) (record {
        paid = h.paid;
        agreed =
            put-Agreed max_attempts store.invoices store.delivery_jobs id row _ h.agreed there
              (live_invoice row.status job.status
                (if is_permanent then JobStatus.permanent else JobStatus.failed) fit
                (is_processing-live job.status (not-of_false (is_processing job.status) running))
                (failed_live is_permanent))
              few;
      })

  pub deliver_job-Sound :
      (store : Store) (id : Bytes) (delivered_at : ℕ) (delivery : Bytes) {after : Store}
      → Sound max_attempts store
      → deliver_job store id delivered_at delivery ≡ ok after
      → Sound max_attempts after
  unfolding deliver_job
  deliver_job-Sound store id delivered_at delivery h e =
      let (row, found, e₁) = or_fail-eq-ok (get id store.invoices) _ _ e in
      let (due, e₂) = fail_if-eq-ok (not (is_submitted row.status)) _ _ e₁ in
      let (job, found', e₃) = or_fail-eq-ok (get id store.delivery_jobs) _ _ e₂ in
      let (running, e₄) = fail_if-eq-ok (not (is_processing job.status)) _ _ e₃ in
      let (tx_id, paid) =
        submitted-paid row.status row.tx_id row.delivery
          (is_submitted_lem row.status (not-of_false (is_submitted row.status) due))
          (h.paid.fitting id row found) in
      let (old, _, _, few) = h.agreed.matched id job found' in
      subst (Sound max_attempts) (ok_injective e₄) (record {
        paid =
            put-Paid id (mark_delivered delivered_at delivery row) store.invoices h.paid
              (ap (λ t. fits InvoiceStatus.delivered t (some delivery)) paid)
              (λ t own. inl (row, found, own));
        agreed =
            put_both-Agreed max_attempts store.invoices store.delivery_jobs id
              (mark_delivered delivered_at delivery row) (finish_job delivered_at job) h.agreed
              delivered_agrees few;
      })
