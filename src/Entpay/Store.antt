-- ===== src/Entpay/Store.antt =====
-- entpay/store.go: invoices, delivery jobs and their operations.
pub mod Sound
pub mod Keep
pub mod Steps
pub mod Jobs
pub mod Delivery
pub mod Runs
use entcoin.Base.{
  ℕ, ◌+◌, ◌*◌, ◌^◌, ◌/◌, ◌++◌, Bool, true, false, ◌&&◌, ◌||◌, not, Option, none, some, List, [],
  ◌∷◌, Bytes, take, ltb, leb, eqb, bytes_eq, bytes_Eq, Result, ok, err, fail_if, or_fail, ◌>>=◌,
  ◌>>◌, if◌then◌else◌, constraint, invoice_not_found, unauthorized, invoice_conflict,
}
use entcoin.Base.Map.{Map, get, put, contains}
use entcoin.Core.Encoding.{Crypto, hash_hex}
use entcoin.Ledger.Tables.{max_int64}

-- The checks of the two status columns.
pub data InvoiceStatus : Type 0 where
  opened submitted delivered : InvoiceStatus

pub data JobStatus : Type 0 where
  queued processing failed permanent delivered : JobStatus

abbrev pub is_open : InvoiceStatus → Bool
is_open InvoiceStatus.opened = true
is_open _ = false

abbrev pub is_submitted : InvoiceStatus → Bool
is_submitted InvoiceStatus.submitted = true
is_submitted _ = false

abbrev pub is_processing : JobStatus → Bool
is_processing JobStatus.processing = true
is_processing _ = false

-- a row of `invoices`, under its id
pub record InvoiceRow : Type 0 where
  pub token_hash : Bytes
  pub merchant : Bytes
  pub amount : ℕ
  pub resource : Bytes
  pub input : Bytes
  pub input_sha256 : Bytes
  pub expires_at : ℕ
  pub confirmations : ℕ
  pub status : InvoiceStatus
  pub tx_id : Option Bytes
  pub created_at : ℕ
  pub delivered_at : Option ℕ
  pub delivery : Option Bytes

-- a row of `delivery_jobs`, under the id of its invoice
pub record JobRow : Type 0 where
  pub status : JobStatus
  pub attempts : ℕ
  pub updated_at : ℕ
  pub last_error : Bytes

pub record Store : Type 0 where
  pub invoices : Map Bytes InvoiceRow
  pub delivery_jobs : Map Bytes JobRow

-- what a product asks for
pub record PaymentTerms : Type 0 where
  pub resource : Bytes
  pub price : ℕ
  pub confirmations : ℕ

-- `Unix()` of an instant, which is its nanoseconds since 1970
abbrev pub unix : ℕ → ℕ
unix instant = instant / 10 ^ 9

-- An operation returns its result and the store that it leaves.
abbrev pub settle : Store → Result Store → Result (Unit {0}) × Store
settle before (ok after) = (ok tt, after)
settle before (err e) = (err e, before)

module _ ⦃c : Crypto⦄ where
  -- the row of a new invoice
  abbrev pub new_invoice : Bytes → Bytes → PaymentTerms → Bytes → ℕ → ℕ → InvoiceRow
  unfolding hash_hex
  new_invoice token merchant terms input expires_at now = record {
    token_hash = c.sha256 token;
    merchant = merchant;
    amount = terms.price;
    resource = terms.resource;
    input = input;
    input_sha256 = hash_hex (terms.resource ++ b'\n' ∷ input);
    expires_at = unix expires_at;
    confirmations = terms.confirmations;
    status = InvoiceStatus.opened;
    tx_id = none;
    created_at = unix now;
    delivered_at = none;
    delivery = none;
  }

  -- `id` and `token` are the texts of the random bytes; the database refuses a number above int64
  unfoldable pub create :
      Store → Bytes → Bytes → Bytes → PaymentTerms → Bytes → ℕ → ℕ → Result Store
  unfolding new_invoice contains put bytes_eq
  create store id token merchant terms input expires_at now = do
    fail_if (eqb terms.price 0 || ltb max_int64 terms.price) constraint
    fail_if (eqb terms.confirmations 0 || ltb max_int64 terms.confirmations) constraint
    fail_if (contains id store.invoices) constraint
    ok (record store {
      invoices = put id (new_invoice token merchant terms input expires_at now) store.invoices;
    })

  unfoldable pub authorized : Store → Bytes → Bytes → Result InvoiceRow
  unfolding get bytes_eq
  authorized store id token = do
    row ← or_fail (get id store.invoices) invoice_not_found
    fail_if (not (bytes_eq row.token_hash (c.sha256 token))) unauthorized
    ok row

-- `used.tx_id = ?`
abbrev pub paid_by : Bytes → InvoiceRow → Bool
paid_by tx_id row = elim (row.tx_id) [ none ↦ false | some used ↦ bytes_eq used tx_id ]

unfoldable pub is_used : Bytes → Map Bytes InvoiceRow → Bool
unfolding bytes_eq
is_used tx_id [] = false
is_used tx_id ((id, row) ∷ rows) = paid_by tx_id row || is_used tx_id rows

abbrev pub mark_submitted : Bytes → InvoiceRow → InvoiceRow
mark_submitted tx_id row = record row { status = InvoiceStatus.submitted; tx_id = some tx_id }

-- `COALESCE(tx_id, '')`
abbrev pub coalesce : Option Bytes → Bytes
coalesce none = []
coalesce (some tx_id) = tx_id

abbrev pub submitted_store : Store → Bytes → Bytes → InvoiceRow → Store
submitted_store store id tx_id row = record store {
  invoices = put id (mark_submitted tx_id row) store.invoices;
}

-- the update, or the same payment again
unfoldable pub submit : Store → Bytes → Bytes → Result Store
unfolding get put is_used bytes_eq
submit store id tx_id = do
  row ← or_fail (get id store.invoices) invoice_conflict
  elim (is_open row.status && not (is_used tx_id store.invoices)) [
    | true ↦ ok (submitted_store store id tx_id row)
    | false ↦
        fail_if (not (is_submitted row.status && bytes_eq (coalesce row.tx_id) tx_id))
          invoice_conflict
        >> ok store
  ]

abbrev pub new_job : ℕ → JobRow
new_job now = record {
  status = JobStatus.queued;
  attempts = 0;
  updated_at = unix now;
  last_error = [];
}

abbrev pub queue_found : Store → Bytes → ℕ → Option InvoiceRow → Map Bytes JobRow
unfolding put
queue_found store id now none = store.delivery_jobs
queue_found store id now (some row) =
    if is_submitted row.status
    then put id (new_job now) store.delivery_jobs
    else store.delivery_jobs

-- `INSERT OR IGNORE INTO delivery_jobs`
unfoldable pub queue_job : Store → Bytes → ℕ → Map Bytes JobRow
unfolding contains get queue_found
queue_job store id now =
    if contains id store.delivery_jobs
    then store.delivery_jobs
    else queue_found store id now (get id store.invoices)

-- by status, whether a failed job and one in progress are old enough
abbrev pub due_again : JobStatus → Bool → Bool → Bool
due_again JobStatus.queued retry stale = true
due_again JobStatus.failed retry stale = retry
due_again JobStatus.processing retry stale = stale
due_again _ retry stale = false

-- whether the update takes the job; a duration is in nanoseconds. The driver refuses a limit on the
-- attempts from 2 ^ 63 on; the only caller gives 3.
unfoldable pub can_acquire : JobRow → ℕ → ℕ → ℕ → ℕ → Bool
can_acquire job now stale_after retry_after max_attempts =
    ltb job.attempts max_attempts
    && due_again job.status (leb (job.updated_at * 10 ^ 9 + retry_after) now)
        (leb (job.updated_at * 10 ^ 9 + stale_after) now)

abbrev pub start_job : JobRow → ℕ → JobRow
start_job job now = record {
  status = JobStatus.processing;
  attempts = job.attempts + 1;
  updated_at = unix now;
  last_error = [];
}

-- The job as it is left, whether it was acquired, and the store.
unfoldable pub acquire_job : Store → Bytes → ℕ → ℕ → ℕ → ℕ → Result (JobRow × Bool × Store)
unfolding queue_job can_acquire get put
acquire_job store id now stale_after retry_after max_attempts = do
  let jobs = queue_job store id now
  job ← or_fail (get id jobs) invoice_conflict
  elim (can_acquire job now stale_after retry_after max_attempts) [
    | true ↦
        ok (
          start_job job now,
          true,
          record store { delivery_jobs = put id (start_job job now) jobs },
        )
    | false ↦ ok (job, false, record store { delivery_jobs = jobs })
  ]

unfoldable pub fail_job : Store → Bytes → Bool → ℕ → Bytes → Result Store
unfolding get put
fail_job store id is_permanent now failure = do
  job ← or_fail (get id store.delivery_jobs) invoice_conflict
  fail_if (not (is_processing job.status)) invoice_conflict
  ok (record store {
    delivery_jobs =
        put id
          (record job {
            status = if is_permanent then JobStatus.permanent else JobStatus.failed;
            updated_at = unix now;
            last_error = take 200 failure;
          })
          store.delivery_jobs;
  })

abbrev pub mark_delivered : ℕ → Bytes → InvoiceRow → InvoiceRow
mark_delivered delivered_at delivery row = record row {
  status = InvoiceStatus.delivered;
  delivered_at = some (unix delivered_at);
  delivery = some delivery;
}

abbrev pub finish_job : ℕ → JobRow → JobRow
finish_job delivered_at job = record job {
  status = JobStatus.delivered;
  updated_at = unix delivered_at;
  last_error = [];
}

-- both updates, or neither
unfoldable pub deliver_job : Store → Bytes → ℕ → Bytes → Result Store
unfolding get put
deliver_job store id delivered_at delivery = do
  row ← or_fail (get id store.invoices) invoice_conflict
  fail_if (not (is_submitted row.status)) invoice_conflict
  job ← or_fail (get id store.delivery_jobs) invoice_conflict
  fail_if (not (is_processing job.status)) invoice_conflict
  ok (record {
    invoices = put id (mark_delivered delivered_at delivery row) store.invoices;
    delivery_jobs = put id (finish_job delivered_at job) store.delivery_jobs;
  })
