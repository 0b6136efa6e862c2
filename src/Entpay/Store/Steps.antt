-- ===== src/Entpay/Store/Steps.antt =====
-- Each operation of entpay/store.go keeps the store sound.
use entcoin.Base.{
  ℕ, ◌≡◌, inl, inr, refl, sym, ap, ◌∙◌, subst, Bool, true, false, ◌&&◌, ◌||◌, not, Option, none,
  some, Bytes, arith, bytes_eq, bytes_Eq, Bool-cases, Result, ok, fail_if, ◌>>◌, ltb, eqb,
  fail_if-eq-ok, or_fail-eq-ok, ok_injective, invoice_conflict,
}
use entcoin.Base.Map.{get, contains, contains-get}
use entcoin.Core.Encoding.{Crypto}
use entcoin.Ledger.Tables.{max_int64}
use entcoin.Entpay.Store.{
  InvoiceStatus, JobStatus, InvoiceRow, Store, PaymentTerms, is_open, is_submitted, is_used,
  new_invoice, mark_submitted, submitted_store, coalesce, create, submit,
}
use entcoin.Entpay.Store.Sound.{Sound, fits, agrees, no_row, true-false}
use entcoin.Entpay.Store.Keep.{put-Paid, put_invoice-Agreed}

is_open_lem : (s : InvoiceStatus) → is_open s ≡ true → s ≡ InvoiceStatus.opened
is_open_lem InvoiceStatus.opened h = refl
is_open_lem InvoiceStatus.submitted h = cc
is_open_lem InvoiceStatus.delivered h = cc

pub is_submitted_lem : (s : InvoiceStatus) → is_submitted s ≡ true → s ≡ InvoiceStatus.submitted
is_submitted_lem InvoiceStatus.submitted h = refl
is_submitted_lem InvoiceStatus.opened h = cc
is_submitted_lem InvoiceStatus.delivered h = cc

pub not-of_false : (b : Bool) → not b ≡ false → b ≡ true
not-of_false b h = ground (arith, h)

both : (a b : Bool) → (a && not b) ≡ true → (a ≡ true) × (b ≡ false)
both a b h = ground (arith, h)

-- An unpaid invoice has no job.
no_open_job : (s : InvoiceStatus) (j : JobStatus) → s ≡ InvoiceStatus.opened → agrees s j ≡ true → ⊥
no_open_job InvoiceStatus.opened j e h = true-false (sym h)
no_open_job InvoiceStatus.submitted j e h = cc
no_open_job InvoiceStatus.delivered j e h = cc

open-unpaid :
    (s : InvoiceStatus) (t d : Option Bytes)
    → s ≡ InvoiceStatus.opened
    → fits s t d ≡ true
    → d ≡ none
open-unpaid InvoiceStatus.opened none none e h = refl
open-unpaid InvoiceStatus.opened none (some d) e h = cc
open-unpaid InvoiceStatus.opened (some t) d e h = cc
open-unpaid InvoiceStatus.submitted t d e h = cc
open-unpaid InvoiceStatus.delivered t d e h = cc

pub submitted-paid :
    (s : InvoiceStatus) (t d : Option Bytes)
    → s ≡ InvoiceStatus.submitted
    → fits s t d ≡ true
    → (tx_id : Bytes) × (t ≡ some tx_id)
submitted-paid InvoiceStatus.submitted (some t) d e h = (t, refl)
submitted-paid InvoiceStatus.submitted none d e h = cc
submitted-paid InvoiceStatus.opened t d e h = cc
submitted-paid InvoiceStatus.delivered t d e h = cc

pub same_row : (r s : InvoiceRow) → some r ≡ some s → r ≡ s
same_row r s e = cc e

same_id : (a b : Bytes) → some a ≡ some b → a ≡ b
same_id a b e = cc e

no_payment : (tx_id : Bytes) → none ≡ some tx_id → ⊥
no_payment tx_id e = cc e

new_not_delivered : InvoiceStatus.opened ≡ InvoiceStatus.delivered → ⊥
new_not_delivered e = cc e

submitted_not_delivered : InvoiceStatus.submitted ≡ InvoiceStatus.delivered → ⊥
submitted_not_delivered e = cc e

module _ (max_attempts : ℕ) where
  pub create-Sound :
      ⦃c : Crypto⦄ (store : Store) (id token merchant : Bytes) (terms : PaymentTerms)
      (input : Bytes) (expires_at now : ℕ) {after : Store}
      → Sound max_attempts store
      → create store id token merchant terms input expires_at now ≡ ok after
      → Sound max_attempts after
  unfolding create new_invoice
  create-Sound ⦃c⦄ store id token merchant terms input expires_at now h e =
      let (_, e₁) = fail_if-eq-ok (eqb terms.price 0 || ltb max_int64 terms.price) _ _ e in
      let (_, e₂) =
        fail_if-eq-ok (eqb terms.confirmations 0 || ltb max_int64 terms.confirmations) _ _ e₁ in
      let (free, e₃) = fail_if-eq-ok (contains id store.invoices) _ _ e₂ in
      let row = new_invoice token merchant terms input expires_at now in
      subst (Sound max_attempts) (ok_injective e₃) (record {
        paid =
            put-Paid id row store.invoices h.paid refl
              (λ tx_id unpaid. absurd (no_payment tx_id unpaid));
        agreed =
            put_invoice-Agreed max_attempts store.invoices store.delivery_jobs id row h.agreed
              (λ job found.
                let (old, there, _, _) = h.agreed.matched id job found in
                no_row old (sym (contains-get id store.invoices free) ∙ there))
              (λ done. new_not_delivered done);
      })

  submitted-Sound :
      (store : Store) (id tx_id : Bytes) (row : InvoiceRow)
      → Sound max_attempts store
      → get id store.invoices ≡ some row
      → row.status ≡ InvoiceStatus.opened
      → is_used tx_id store.invoices ≡ false
      → Sound max_attempts (submitted_store store id tx_id row)
  submitted-Sound store id tx_id row h found unpaid unused =
      let fitting =
        ap (fits InvoiceStatus.submitted (some tx_id))
          (open-unpaid row.status row.tx_id row.delivery unpaid (h.paid.fitting id row found)) in
      record {
        paid =
            put-Paid id (mark_submitted tx_id row) store.invoices h.paid fitting (λ t e.
              inr (subst (λ x. is_used x store.invoices ≡ false) (same_id tx_id t e) unused));
        agreed =
            put_invoice-Agreed max_attempts store.invoices store.delivery_jobs id
              (mark_submitted tx_id row) h.agreed
              (λ job there.
                let (old, there', fit, _) = h.agreed.matched id job there in
                no_open_job old.status job.status
                  (sym (ap (λ x. x.status) (same_row row old (sym found ∙ there'))) ∙ unpaid) fit)
              (λ done. submitted_not_delivered done);
      }

  pub submit-Sound :
      (store : Store) (id tx_id : Bytes) {after : Store}
      → Sound max_attempts store
      → submit store id tx_id ≡ ok after
      → Sound max_attempts after
  unfolding submit
  submit-Sound store id tx_id h e =
      let (row, found, e₁) = or_fail-eq-ok (get id store.invoices) _ _ e in
      let branch : Bool → Result Store = λ b. elim b [
        | true ↦ ok (submitted_store store id tx_id row)
        | false ↦
            fail_if (not (is_submitted row.status && bytes_eq (coalesce row.tx_id) tx_id))
              invoice_conflict
            >> ok store
      ] in
      elim (Bool-cases (is_open row.status && not (is_used tx_id store.invoices))) [
        | inl payable ↦
            let (unpaid, unused) =
              both (is_open row.status) (is_used tx_id store.invoices) payable in
            subst (Sound max_attempts) (ok_injective (sym (ap branch payable) ∙ e₁))
              (submitted-Sound store id tx_id row h found (is_open_lem row.status unpaid) unused)
        | inr other ↦
            let (_, e₂) =
              fail_if-eq-ok (not (is_submitted row.status && bytes_eq (coalesce row.tx_id) tx_id)) _
                _ (sym (ap branch other) ∙ e₁) in
            subst (Sound max_attempts) (ok_injective e₂) h
      ]
