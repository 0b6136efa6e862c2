-- ===== src/Entpay/Store/Runs.antt =====
-- Sequences of operations on the store of entpay/store.go, whatever they answer.
use entcoin.Base.{ℕ, ◌≡◌, refl, Bool, none, some, List, [], ◌∷◌, Bytes, Result, ok, err, bytes_Eq}
use entcoin.Base.Map.{get}
use entcoin.Core.Encoding.{Crypto}
use entcoin.Entpay.Store.{
  Store, JobRow, PaymentTerms, create, submit, acquire_job, fail_job, deliver_job,
}
use entcoin.Entpay.Store.Sound.{Sound, no_row}
use entcoin.Entpay.Store.Steps.{create-Sound, submit-Sound}
use entcoin.Entpay.Store.Jobs.{acquire_job-Sound, fail_job-Sound, deliver_job-Sound}

-- the methods of `store` that change an invoice or a job, with their arguments
pub data Operation : Type 0 where
  creating : Bytes → Bytes → Bytes → PaymentTerms → Bytes → ℕ → ℕ → Operation
  submitting : Bytes → Bytes → Operation
  acquiring : Bytes → ℕ → ℕ → ℕ → Operation
  failing : Bytes → Bool → ℕ → Bytes → Operation
  delivering : Bytes → ℕ → Bytes → Operation

abbrev pub no_invoices : Store
no_invoices = record { invoices = []; delivery_jobs = [] }

-- An operation that fails changes nothing.
abbrev pub left_by : Store → Result Store → Store
left_by before (ok after) = after
left_by before (err e) = before

abbrev pub left_by_job : Store → Result (JobRow × Bool × Store) → Store
left_by_job before (ok result) = result.2
left_by_job before (err e) = before

no_job : (job : JobRow) → none ≡ some job → ⊥
no_job job e = cc e

module _ ⦃c : Crypto⦄ (max_attempts : ℕ) where
  unfoldable pub perform : Store → Operation → Store
  unfolding create submit acquire_job fail_job deliver_job
  perform store (creating id token merchant terms input expires_at now) =
      left_by store (create store id token merchant terms input expires_at now)
  perform store (submitting id tx_id) = left_by store (submit store id tx_id)
  perform store (acquiring id now stale_after retry_after) =
      left_by_job store (acquire_job store id now stale_after retry_after max_attempts)
  perform store (failing id is_permanent now failure) =
      left_by store (fail_job store id is_permanent now failure)
  perform store (delivering id delivered_at delivery) =
      left_by store (deliver_job store id delivered_at delivery)

  unfoldable pub run : Store → List Operation → Store
  unfolding perform
  run store [] = store
  run store (operation ∷ rest) = run (perform store operation) rest

  left_by-Sound :
      (store : Store) (r : Result Store)
      → Sound max_attempts store
      → ((after : Store) → r ≡ ok after → Sound max_attempts after)
      → Sound max_attempts (left_by store r)
  left_by-Sound store (ok after) h k = k after refl
  left_by-Sound store (err e) h k = h

  left_by_job-Sound :
      (store : Store) (r : Result (JobRow × Bool × Store))
      → Sound max_attempts store
      → ((result : JobRow × Bool × Store) → r ≡ ok result → Sound max_attempts result.2)
      → Sound max_attempts (left_by_job store r)
  left_by_job-Sound store (ok result) h k = k result refl
  left_by_job-Sound store (err e) h k = h

  perform-Sound :
      (store : Store) (operation : Operation)
      → Sound max_attempts store
      → Sound max_attempts (perform store operation)
  unfolding perform
  perform-Sound store (creating id token merchant terms input expires_at now) h =
      left_by-Sound store (create store id token merchant terms input expires_at now) h (λ after e.
        create-Sound max_attempts store id token merchant terms input expires_at now h e)
  perform-Sound store (submitting id tx_id) h =
      left_by-Sound store (submit store id tx_id) h
        (λ after e. submit-Sound max_attempts store id tx_id h e)
  perform-Sound store (acquiring id now stale_after retry_after) h =
      left_by_job-Sound store (acquire_job store id now stale_after retry_after max_attempts) h
        (λ result e. acquire_job-Sound max_attempts store id now stale_after retry_after h e)
  perform-Sound store (failing id is_permanent now failure) h =
      left_by-Sound store (fail_job store id is_permanent now failure) h
        (λ after e. fail_job-Sound max_attempts store id is_permanent now failure h e)
  perform-Sound store (delivering id delivered_at delivery) h =
      left_by-Sound store (deliver_job store id delivered_at delivery) h
        (λ after e. deliver_job-Sound max_attempts store id delivered_at delivery h e)

  run_from-Sound :
      (store : Store) (operations : List Operation)
      → Sound max_attempts store
      → Sound max_attempts (run store operations)
  unfolding run
  run_from-Sound store [] h = h
  run_from-Sound store (operation ∷ rest) h =
      run_from-Sound (perform store operation) rest (perform-Sound store operation h)

  no_invoices-Sound : Sound max_attempts no_invoices
  unfolding get
  no_invoices-Sound = record {
    paid = record {
      fitting = λ id row found. absurd (no_row row found);
      one_use = λ a b tx_id r s fa fb pa pb. absurd (no_row r fa);
    };
    agreed = record {
      matched = λ id job found. absurd (no_job job found);
      finished = λ id row found e. absurd (no_row row found);
    };
  }

  -- After any operations on an empty store: no transaction pays two invoices; an invoice has a
  -- transaction exactly when it is submitted or delivered, and a delivery exactly when it is delivered;
  -- only such an invoice has a job; the two are delivered together; and no job was started more often
  -- than the attempts allow.
  pub run-Sound : (operations : List Operation) → Sound max_attempts (run no_invoices operations)
  run-Sound operations = run_from-Sound no_invoices operations no_invoices-Sound
