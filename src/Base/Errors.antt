-- ===== src/Base/Errors.antt =====
-- Go's `(value, error)` results. Each error constructor stands for one message of the source; the
-- values that a message prints and the position that a caller wraps round it are left out.
use mathlib.Core.Path.{◌≡◌, refl, ap}
use mathlib.Core.Logic.{◌⊎◌, inl, inr}
use mathlib.Core.Bool.{Bool, true, false}
use mathlib.Core.Option.{Option, none, some}
use mathlib.Core.List.{List, [], ◌∷◌}

-- `index_out_of_range` is Go's panic; the others are values of `error`.
pub data Error : Type 0 where
  index_out_of_range : Error
  invalid_amount decimal_places amount_overflow : Error
  invalid_hex invalid_hash invalid_address invalid_address_checksum : Error
  missing_inputs_outputs input_output_limit input_hash input_sizes output_amount : Error
  transaction_size transaction_id duplicate_input missing_input not_owner public_key : Error
  signature overspent : Error
  not_coinbase no_reward coinbase_limits coinbase_id coinbase_reward : Error
  duplicate_output no_origin immature : Error
  block_version prior_window block_height previous_hash median_time previous_time : Error
  future_time difficulty merkle_root_format block_hash work : Error
  transaction_count oversized_transaction block_size merkle_root_mismatch : Error
  chain_identity genesis_mismatch first_coinbase many_coinbases duplicate_transaction : Error
  duplicate_coinbase pending_limit pending_duplicate already_exists : Error
  mining_workers mining_cancelled nonce_exhausted mined_invalid : Error
  private_key wallet_public_key wallet_address : Error
  zero_amount insufficient_funds random_source output_count : Error
  -- of the ledger; `constraint` is a row that a table's keys refuse
  rejected : Error → Error
  coinbase_in_mempool already_known mempool_accounting byte_budget input_budget : Error
  pending_spent stored_output relay_fee storage_range constraint chain_exhausted : Error
  no_tip no_header stored_input input_changed genesis_disconnect beyond_prune : Error
  block_not_found undo_missing undo_hash undo_duplicate undo_invalid tip_changed : Error
  position_gap insufficient_work bad_ancestor page_limit page_offset spendable_overflow : Error
  prune_depth prune_retention stale_tip mining_metadata dependency_cycle selected_twice : Error
  already_imported : Error
  invoice_not_found unauthorized invoice_conflict handoff_not_found handoff_invalid : Error
  payment_invalid payment_outputs : Error

pub data Result {ℓ} (Value : Type ℓ) : Type ℓ where
  ok : Value → Result Value
  err : Error → Result Value

-- `if err != nil { return err }` after a call, and the same after a call with no other result.
infixl 5 ◌>>=◌ ◌>>◌
abbrev pub ◌>>=◌ {ℓ κ} : {V : Type ℓ} {W : Type κ} → Result V → (V → Result W) → Result W
ok value >>= next = next value
err failure >>= next = err failure

abbrev pub ◌>>◌ {ℓ} : {W : Type ℓ} → Result (Unit {0}) → Result W → Result W
◌>>◌ check next = check >>= (λ _. next)

-- `if bad { return error }`
abbrev pub fail_if : Bool → Error → Result (Unit {0})
fail_if true e = err e
fail_if false e = ok tt

-- A `for` loop that returns at the first error.
unfoldable pub check_each {ℓ} : {A : Type ℓ} → (A → Result (Unit {0})) → List A → Result (Unit {0})
check_each f [] = ok tt
check_each f (x ∷ xs) = f x >> check_each f xs

abbrev pub or_fail {ℓ} : {A : Type ℓ} → Option A → Error → Result A
or_fail none e = err e
or_fail (some a) e = ok a

-- `err == nil`
abbrev pub is_ok {ℓ} : {A : Type ℓ} → Result A → Bool
is_ok (ok a) = true
is_ok (err e) = false

pub is_ok_lem : (r : Result (Unit {0})) → is_ok r ≡ true → r ≡ ok tt
is_ok_lem (ok u) h = refl
is_ok_lem (err e) h = cc

pub ok_injective {ℓ} : {A : Type ℓ} {a b : A} → ◌≡◌ {A = Result A} (ok a) (ok b) → a ≡ b
ok_injective e = cc e

pub err≢ok {ℓ} : {A : Type ℓ} {e : Error} {a : A} → ◌≡◌ {A = Result A} (err e) (ok a) → ⊥
err≢ok h = cc h

-- A call whose result is known gives way to what follows it.
pub >>=-of_ok {ℓ κ} :
    {V : Type ℓ} {W : Type κ} {call : Result V} {value : V} (next : V → Result W)
    → call ≡ ok value
    → (call >>= next) ≡ next value
>>=-of_ok next e = ap (λ r. r >>= next) e

-- What a successful sequence went through.
pub >>=-eq-ok {ℓ κ} :
    {V : Type ℓ} {W : Type κ} (call : Result V) (next : V → Result W) {result : W}
    → (call >>= next) ≡ ok result
    → (value : V) × (call ≡ ok value) × (next value ≡ ok result)
>>=-eq-ok (ok value) next success = (value, refl, success)
>>=-eq-ok (err failure) next success = cc

pub fail_if-eq-ok {ℓ} :
    {B : Type ℓ} (t : Bool) (e : Error) (k : Result B) {b : B}
    → (fail_if t e >> k) ≡ ok b
    → (t ≡ false) × (k ≡ ok b)
fail_if-eq-ok true e k h = cc
fail_if-eq-ok false e k h = (refl, h)

pub >>-eq-ok {ℓ} :
    {B : Type ℓ} (m : Result (Unit {0})) (k : Result B) {b : B}
    → (m >> k) ≡ ok b
    → (m ≡ ok tt) × (k ≡ ok b)
>>-eq-ok (ok u) k h = (refl, h)
>>-eq-ok (err e) k h = cc

pub or_fail-eq-ok {ℓ κ} :
    {A : Type ℓ} {B : Type κ} (o : Option A) (e : Error) (f : A → Result B) {b : B}
    → (or_fail o e >>= f) ≡ ok b
    → (a : A) × (o ≡ some a) × (f a ≡ ok b)
or_fail-eq-ok none e f h = cc
or_fail-eq-ok (some a) e f h = (a, refl, h)

-- A check that passes leaves what follows it.
pub fail_if-pass {ℓ} :
    {B : Type ℓ} (t : Bool) (e : Error) (k : Result B) → t ≡ false → (fail_if t e >> k) ≡ k
fail_if-pass true e k h = cc
fail_if-pass false e k h = refl

pub fail_if_ok : (t : Bool) (e : Error) → fail_if t e ≡ ok tt → t ≡ false
fail_if_ok true e h = cc
fail_if_ok false e h = refl

pub Result-cases {ℓ} :
    {A : Type ℓ} (r : Result A) → ((a : A) × (r ≡ ok a)) ⊎ ((e : Error) × (r ≡ err e))
Result-cases (ok a) = inl (a, refl)
Result-cases (err e) = inr (e, refl)
