-- ===== src/Tests/EntpayWitnesses.antt =====
-- The invoices of the payment gateway at concrete operations.
use entcoin.Base.{
  arith, ok, ◌≡◌, refl, Bool, true, false, Option, bytes_Eq, bytes_eq, none, some, List, [], ◌∷◌,
}
use entcoin.Base.Map.{get}
use entcoin.Entpay.Store.{
  Store, InvoiceStatus, InvoiceRow, JobRow, PaymentTerms, acquire_job, deliver_job, mark_delivered,
}
use entcoin.Entpay.Store.Sound.{Sound}
use entcoin.Entpay.Store.Runs.{
  Operation, creating, submitting, acquiring, delivering, no_invoices, run, run-Sound,
}
use entcoin.Entpay.Store.Delivery.{acquire_job-deliver_job}
use entcoin.Tests.Toy.{toy}

abbrev terms : PaymentTerms
terms = record { resource = b'r' ∷ []; price = 500; confirmations = 2 }

-- Two invoices; the second tries the payment of the first; the first is delivered.
abbrev operations : List Operation
operations =
    creating (b'a' ∷ []) (b't' ∷ []) (b'm' ∷ []) terms [] 2_000_000_000_000 1_000_000_000_000
    ∷ creating (b'b' ∷ []) (b'u' ∷ []) (b'm' ∷ []) terms [] 2_000_000_000_000 1_000_000_000_000
    ∷ submitting (b'a' ∷ []) (b'x' ∷ [])
    ∷ submitting (b'b' ∷ []) (b'x' ∷ [])
    ∷ acquiring (b'a' ∷ []) 1_100_000_000_000 60_000_000_000 5_000_000_000
    ∷ delivering (b'a' ∷ []) 1_101_000_000_000 (b'd' ∷ [])
    ∷ []

abbrev is_delivered : Option InvoiceRow → Bool
is_delivered none = false
is_delivered (some row) = elim (row.status) [ InvoiceStatus.delivered ↦ true | _ ↦ false ]

first_delivered :
    is_delivered (get (b'a' ∷ []) (run ⦃c = toy⦄ 3 no_invoices operations).invoices) ≡ true
unfolding run get
first_delivered = refl

run-Sound_example : Sound 3 (run ⦃c = toy⦄ 3 no_invoices operations)
run-Sound_example = run-Sound ⦃c = toy⦄ 3 operations

abbrev paid_invoice : InvoiceRow
paid_invoice = record {
  token_hash = [];
  merchant = b'm' ∷ [];
  amount = 500;
  resource = b'r' ∷ [];
  input = [];
  input_sha256 = [];
  expires_at = 2_000;
  confirmations = 2;
  status = InvoiceStatus.submitted;
  tx_id = some (b'x' ∷ []);
  created_at = 1_000;
  delivered_at = none;
  delivery = none;
}

abbrev paid_store : Store
paid_store = record { invoices = (b'a' ∷ [], paid_invoice) ∷ []; delivery_jobs = [] }

paid_store-found : get (b'a' ∷ []) paid_store.invoices ≡ some paid_invoice
unfolding get bytes_eq
paid_store-found = refl

paid_store-free : get (b'a' ∷ []) paid_store.delivery_jobs ≡ none
unfolding get
paid_store-free = refl

acquire_job-deliver_job_example :
    (job : JobRow) × (middle : Store) × (after : Store) × (acquire_job paid_store
        (b'a' ∷ [])
        1_100_000_000_000
        60_000_000_000
        5_000_000_000
        3
      ≡ ok (job, true, middle))
    × (deliver_job middle (b'a' ∷ []) 1_101_000_000_000 (b'd' ∷ []) ≡ ok after)
    × (get (b'a' ∷ []) after.invoices
        ≡ some (mark_delivered 1_101_000_000_000 (b'd' ∷ []) paid_invoice))
acquire_job-deliver_job_example =
    acquire_job-deliver_job paid_store (b'a' ∷ []) 1_100_000_000_000 60_000_000_000 5_000_000_000 3
      paid_invoice 1_101_000_000_000 (b'd' ∷ []) paid_store-found refl paid_store-free (omega arith)
