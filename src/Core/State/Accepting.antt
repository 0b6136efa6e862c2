-- ===== src/Core/State/Accepting.antt =====
-- `AddPending` of internal/core/chain.go: what it accepts keeps the state valid.
use entcoin.Base.{
  ℕ, ◌≡◌, refl, sym, ap, ◌∙◌, true, List, [], ◌∷◌, ◌++◌, length, length-append, ltb, leb, Result,
  ok, err, fail_if, ◌>>=◌, ◌>>◌, Error, Result-cases, inl, inr, ◌⊎◌, >>=-eq-ok, fail_if-eq-ok,
  fail_if-pass, arith, pending_limit, pending_duplicate, already_exists, bytes_Eq,
}
use entcoin.Base.Int.{ℤ}
use entcoin.Base.Map.{contains}
use entcoin.Core.Model.{max_pending_transactions, Transaction, State}
use entcoin.Core.Encoding.{Crypto}
use entcoin.Core.Chain.{
  Replay, apply_transaction, apply_pending, replay, replay_pending, next_height,
}
use entcoin.Core.Chain.Conservation.{replay-ok, replay_with_pending}
use entcoin.Core.State.{validate, check_pending, add_pending}

module _ ⦃c : Crypto⦄ where
  abbrev go_on : List Transaction → ℕ → ℕ × Replay → Result Replay
  go_on rest height (_, r) = apply_pending rest height r

  apply_pending_cons :
      (tx : Transaction) (rest : List Transaction) (height : ℕ) (r : Replay)
      → apply_pending (tx ∷ rest) height r ≡ (
          fail_if (contains tx.id r.seen) pending_duplicate
          >> (apply_transaction tx height r >>= go_on rest height))
  unfolding apply_pending
  apply_pending_cons tx rest height r = refl

  replay_pending_step :
      (s : State) (r : Replay)
      → replay_pending s r ≡ (
          fail_if (ltb max_pending_transactions (length s.pending)) pending_limit
          >> apply_pending s.pending (next_height s) r)
  unfolding replay_pending
  replay_pending_step s r = refl

  apply_pending_nil : (height : ℕ) (r : Replay) → apply_pending [] height r ≡ ok r
  unfolding apply_pending
  apply_pending_nil height r = refl

  -- Pending transactions are applied one after the other.
  apply_pending-append :
      (txs more : List Transaction) (height : ℕ) (r r' : Replay)
      → apply_pending txs height r ≡ ok r'
      → apply_pending (txs ++ more) height r ≡ apply_pending more height r'
  apply_pending-append [] more height r r' h = ground (arith, apply_pending_nil height r)
  apply_pending-append (tx ∷ rest) more height r r' h =
      let (new, h₁) =
        fail_if-eq-ok (contains tx.id r.seen) pending_duplicate
          (apply_transaction tx height r >>= go_on rest height)
          (sym (apply_pending_cons tx rest height r) ∙ h) in
      let (out, applied, tail) = >>=-eq-ok (apply_transaction tx height r) (go_on rest height) h₁ in
      apply_pending_cons tx (rest ++ more) height r
      ∙ fail_if-pass (contains tx.id r.seen) pending_duplicate _ new
      ∙ ap (λ m. m >>= go_on (rest ++ more) height) applied
      ∙ apply_pending-append rest more height out.1 r' tail

module _ ⦃c : Crypto⦄ (now : ℕ → ℤ) (s : State) (tx : Transaction) where
  abbrev check_new : Replay → Result Replay
  check_new r =
      fail_if (contains tx.id r.seen) already_exists
      >> (apply_transaction tx (next_height s) r >>= λ out. ok out.1)

  check_pending_step : check_pending now s tx ≡ (
      fail_if (leb max_pending_transactions (length s.pending)) pending_limit
      >> (replay now s true >>= check_new))
  unfolding check_pending
  check_pending_step = refl

  abbrev pub added : State
  added = record s { pending = s.pending ++ tx ∷ [] }

  -- The transaction was checked against the coins that the pending ones leave.
  check_pending-validate :
      (r' : Replay) → check_pending now s tx ≡ ok r' → replay now added true ≡ ok r'
  check_pending-validate r' h =
      let (room, h₁) =
        fail_if-eq-ok (leb max_pending_transactions (length s.pending)) pending_limit
          (replay now s true >>= check_new) (sym check_pending_step ∙ h) in
      let (r, replayed, h₂) = >>=-eq-ok (replay now s true) check_new h₁ in
      let (new, h₃) =
        fail_if-eq-ok (contains tx.id r.seen) already_exists
          (apply_transaction tx (next_height s) r >>= λ out. ok out.1) h₂ in
      let (out, applied, last) =
        >>=-eq-ok (apply_transaction tx (next_height s) r) (λ out. ok out.1) h₃ in
      let (confirmed, accepted, _, pending) = replay-ok now s true r replayed in
      let (_, before) =
        fail_if-eq-ok (ltb max_pending_transactions (length s.pending)) pending_limit
          (apply_pending s.pending (next_height s) confirmed)
          (sym (replay_pending_step s confirmed) ∙ pending) in
      replay_with_pending now s (s.pending ++ tx ∷ []) confirmed accepted
      ∙ replay_pending_step added confirmed
      ∙ fail_if-pass (ltb max_pending_transactions (length (s.pending ++ tx ∷ []))) pending_limit _
          (ground (arith, length-append s.pending (tx ∷ [])))
      ∙ apply_pending-append s.pending (tx ∷ []) (next_height s) confirmed r before
      ∙ apply_pending_cons tx [] (next_height s) r
      ∙ fail_if-pass (contains tx.id r.seen) pending_duplicate _ new
      ∙ ap (λ m. m >>= go_on [] (next_height s)) applied
      ∙ apply_pending_nil (next_height s) out.1
      ∙ last

  -- `AddPending` appends the transaction and leaves a state that validates, or fails and leaves the
  -- state as it was.
  pub add_pending_outcome :
      (((add_pending now s tx).0 ≡ ok tt)
        × ((add_pending now s tx).1 ≡ added)
        × (validate now (add_pending now s tx).1 ≡ ok tt))
      ⊎ ((e : Error) × (add_pending now s tx ≡ (err e, s)))
  add_pending_outcome = elim (Result-cases (check_pending now s tx)) [
    | inl (r', checked) ↦
        let appended : add_pending now s tx ≡ (ok tt, added) = unfold add_pending in rw checked in
        inl (
          ap (λ out. out.0) appended,
          ap (λ out. out.1) appended,
          rw appended (unfold validate in rw (check_pending-validate r' checked)),
        )
    | inr (e, refused) ↦ inr (e, unfold add_pending in rw refused)
  ]
