-- ===== src/Result.antt =====
-- The errors that the modelled packages return, and methods that mutate a store and may fail.
-- A sentinel `errors.New` value is a constructor; an error wrapped with `%w` and a message carries
-- the message.
use taskpulse.Prelude.{String, Bool, true, false, Option, none, some, ◌≡◌, refl, ◌⊎◌, inl, inr}

pub data Error : Type 0 where
  -- context
  context_canceled context_deadline_exceeded : Error
  -- internal/domain/task.go
  task_id_required workflow_required negative_max_retries nil_receiver : Error
  invalid_transition retry_budget_exhausted invalid_retry_time : Error
  not_running release_time_required : Error
  -- internal/domain/event.go
  event_id_required event_task_id_required event_type_required progress_out_of_range : Error
  invalid_claim_kind not_queued_after_release not_canceled not_retrying : Error
  retry_error_code_required retry_delay_not_positive marshal_failed : Error
  -- internal/store
  task_not_found task_already_exists nil_task no_task_available task_conflict : Error
  invalid_claim invalid_lease_renewal lease_lost no_expired_task invalid_cleanup_time : Error
  invalid_event_id event_already_exists nil_event : Error
  task_event_mismatch idempotency_conflict : Error
  task_not_cancelable invalid_cancellation_time invalid_task_query : Error
  -- internal/worker
  invalid_max_retries invalid_base_delay invalid_max_delay invalid_retry_count : Error
  invalid_lease_duration invalid_poll_interval invalid_retry_after invalid_error_kind
        empty_error_code permanent_retry_after :
      Error
  nil_execution_error execution_not_retryable invalid_retry_now : Error
  -- internal/application
  invalid_worker_request invalid_input : String → Error
  -- pkg/taskpulseworker/runtime.go
  invalid_config invalid_registration invalid_claim_response : String → Error

pub data Result {ℓ} (A : Type ℓ) : Type ℓ where
  ok : A → Result A
  err : Error → Result A

-- `ctx.Err()` at the time of the call.
abbrev pub Context : Type 0
Context = Option Error

abbrev pub Exec {ℓ} : Type ℓ → Type ℓ → Type ℓ
Exec S A = S → Result A × S

module _ {ℓ} {S A : Type ℓ} where
  abbrev pub return : A → Exec S A
  return a s = (ok a, s)

  abbrev pub fail : Error → Exec S A
  fail e s = (err e, s)

  -- A call without a store, such as `Validate` or a constructor.
  abbrev pub lift : Result A → Exec S A
  lift r s = (r, s)

  -- A value that may be nil or missing.
  abbrev pub require : Option A → Error → Exec S A
  require none e s = (err e, s)
  require (some a) e s = (ok a, s)

module _ {ℓ} {S A B : Type ℓ} where
  abbrev pub continue : Result A → (A → Exec S B) → Exec S B
  continue (ok a) f s = f a s
  continue (err e) f s = (err e, s)

  infixl 10 ◌>>=◌
  abbrev pub ◌>>=◌ : Exec S A → (A → Exec S B) → Exec S B
  ◌>>=◌ m f s = let (r, s') = m s in continue r f s'

module _ {S B : Type 0} where
  infixl 10 ◌>>◌
  abbrev pub ◌>>◌ : Exec S (Unit {0}) → Exec S B → Exec S B
  m >> n = m >>= λ _. n

module _ {S : Type 0} where
  -- `if condition { return err }`
  abbrev pub fail_if : Bool → Error → Exec S (Unit {0})
  fail_if true e s = (err e, s)
  fail_if false e s = (ok tt, s)

  -- `if err := ctx.Err(); err != nil { return err }`
  abbrev pub check : Context → Exec S (Unit {0})
  check none s = (ok tt, s)
  check (some e) s = (err e, s)

abbrev pub is_ok {ℓ} : {A : Type ℓ} → Result A → Bool
is_ok (ok a) = true
is_ok (err e) = false

pub Result-cases {ℓ} :
    {A : Type ℓ} (r : Result A) → ((a : A) × (r ≡ ok a)) ⊎ ((e : Error) × (r ≡ err e))
Result-cases (ok a) = inl (a, refl)
Result-cases (err e) = inr (e, refl)

-- What a method did: a value or an error, each with the state after it.
pub Exec-cases {ℓ κ} :
    {S : Type ℓ} {A : Type κ} (out : Result A × S)
    → ((a : A) × (s : S) × (out ≡ (ok a, s))) ⊎ ((e : Error) × (s : S) × (out ≡ (err e, s)))
Exec-cases (ok a, s) = inl (a, s, refl)
Exec-cases (err e, s) = inr (e, s, refl)
