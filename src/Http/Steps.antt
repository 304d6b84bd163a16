-- ===== src/Http/Steps.antt =====
-- What a handler of internal/transport/http may do to the stores, and the combinators it is made of.
use taskpulse.Prelude.{
  ◌≤◌, arith, String, ◌≡◌, refl, subst, sym, Bool, true, false, not, Option, none, some, List, ℤ,
  if◌then◌else◌,
}
use taskpulse.Result.{
  Error, Result, ok, err, Context, no_task_available, invalid_input, invalid_worker_request,
  task_not_found, task_already_exists, idempotency_conflict, task_not_cancelable, lease_lost,
  task_conflict,
}
use taskpulse.Task.{Task}
use taskpulse.Store.Both.{Stores}
use taskpulse.Application.Codec.{Codec}
use taskpulse.System.{
  Operation, perform, Run, next, create, claim, heartbeat, complete, progress, fail, release,
  cancel,
}
use taskpulse.Metrics.{Recording}
use taskpulse.Http.{Handler, Request, Response, authorize_worker, respond, write_application_error}
use taskpulse.Http.TaskHandlers.{with_body, create_input}
use taskpulse.Http.WorkerHandlers.{worker_call, with_duration, claim_response}
use taskpulse.Http.Router.{Endpoint, Draws, Answer, unmatched, delegated, handled}
use taskpulse.Http.Decoding.{Decoders, decode_json, parse_lease_duration, parse_optional_duration}

-- What a request does to the stores: nothing, as it is refused or asks for no operation; or the
-- operation that it asks for.
pub data IsStep (codec : Codec) (Refused : Type 0) (ctx : Context) (asked : Option Operation)
    (s s' : Stores) : Type 0 where
  refused : Refused → s' ≡ s → IsStep codec Refused ctx asked s s'
  unasked : asked ≡ none → s' ≡ s → IsStep codec Refused ctx asked s s'
  performed :
      (o : Operation)
      → asked ≡ some o
      → s' ≡ perform codec ctx o s
      → IsStep codec Refused ctx asked s s'

pub Run-IsStep :
    (codec : Codec) {R : Type 0} {ctx : Context} {asked : Option Operation} {s u v : Stores}
    → Run codec s u
    → IsStep codec R ctx asked u v
    → Run codec s v
Run-IsStep codec {s = s} r (refused why e) = subst (Run codec s) (sym e) r
Run-IsStep codec {s = s} r (unasked a e) = subst (Run codec s) (sym e) r
Run-IsStep codec {ctx = ctx} {s = s} r (performed o a e) =
    subst (Run codec s) (sym e) (next r ctx o)

-- The operation of what was decoded, and of a duration that was read.
abbrev pub of_body : {A : Type 0} → Option A → (A → Option Operation) → Option Operation
of_body none ask = none
of_body (some a) ask = ask a

abbrev pub of_duration : Result ℤ → (ℤ → Option Operation) → Option Operation
of_duration (err e) ask = none
of_duration (ok n) ask = ask n

-- The operation that a request asks an endpoint for, if its body and durations can be read.
module _ (decoders : Decoders) where
  open decoders use {at_end, parse_duration}

  unfoldable pub operation_of : Endpoint → Request → Draws → Option Operation
  unfolding decode_json parse_lease_duration parse_optional_duration
  operation_of Endpoint.create_task r d =
      of_body (decode_json at_end decoders.create r.body)
        (λ q. some (create (create_input r q) d.fresh))
  operation_of Endpoint.cancel_task r d = some (cancel r.task_id d.event_id d.now)
  operation_of Endpoint.claim r d = of_body (decode_json at_end decoders.claim r.body) (λ q.
      of_duration (parse_lease_duration parse_duration q.lease_duration) (λ lease. some (
        claim (record { worker_id = q.worker_id; workflow = q.workflow; lease_duration = lease })
          d.now d.event_id)))
  operation_of Endpoint.heartbeat r d = of_body (decode_json at_end decoders.heartbeat r.body) (λ q.
      of_duration (parse_lease_duration parse_duration q.lease_duration) (λ lease. some (
        heartbeat
          (record {
            task_id = r.task_id;
            worker_id = q.worker_id;
            lease_token = q.lease_token;
            lease_duration = lease;
          })
          d.now)))
  operation_of Endpoint.progress r d = of_body (decode_json at_end decoders.progress r.body) (λ q.
      some (
        progress
          (record {
            task_id = r.task_id;
            worker_id = q.worker_id;
            lease_token = q.lease_token;
            progress = q.progress;
            message = q.message;
          })
          d.clock d.event_id))
  operation_of Endpoint.complete r d = of_body (decode_json at_end decoders.complete r.body) (λ q.
      some (
        complete
          (record {
            task_id = r.task_id;
            worker_id = q.worker_id;
            lease_token = q.lease_token;
            output = q.output;
            result_ref = q.result_ref;
          })
          d.clock d.event_id))
  operation_of Endpoint.fail r d = of_body (decode_json at_end decoders.fail r.body) (λ q.
      of_duration (parse_optional_duration parse_duration q.retry_after) (λ retry_after. some (
        fail d.int63n
          (record {
            task_id = r.task_id;
            worker_id = q.worker_id;
            lease_token = q.lease_token;
            error_code = q.error_code;
            error_message = q.error_message;
            retryable = q.retryable;
            retry_after = retry_after;
          })
          d.clock d.event_id d.retry_at d.retry_id)))
  operation_of Endpoint.release r d = of_body (decode_json at_end decoders.release r.body) (λ q.
      some (
        release
          (record { task_id = r.task_id; worker_id = q.worker_id; lease_token = q.lease_token })
          d.clock d.event_id))
  operation_of _ r d = none

pub respond-state :
    {Seconds S A : Type 0} (f : A → Response Seconds) (out : Result A × S)
    → (respond f out).1 ≡ out.1
respond-state f (ok a, s) = refl
respond-state f (err e, s) = refl

pub claim_response-state :
    (Seconds : Type 0) (metrics : Bool) (w : String) (told : List Recording)
    (out : Result Task × Stores)
    → (claim_response {Seconds = Seconds} metrics w told out).1.stores ≡ out.1
unfolding claim_response
claim_response-state Seconds metrics w told (ok t, s) = refl
claim_response-state Seconds metrics w told (err no_task_available, s) = refl
claim_response-state Seconds metrics w told (err _, s) = refl

-- An error of the client or of the server.
abbrev pub IsRefusal : {Seconds : Type 0} → Response Seconds → Type 0
IsRefusal response = 400 ≤ response.status

application_error-IsRefusal :
    (Seconds : Type 0) (e : Error) → IsRefusal (write_application_error {Seconds = Seconds} e)
unfolding write_application_error
application_error-IsRefusal Seconds (invalid_input m) = omega arith
application_error-IsRefusal Seconds (invalid_worker_request m) = omega arith
application_error-IsRefusal Seconds task_not_found = omega arith
application_error-IsRefusal Seconds task_already_exists = omega arith
application_error-IsRefusal Seconds idempotency_conflict = omega arith
application_error-IsRefusal Seconds task_not_cancelable = omega arith
application_error-IsRefusal Seconds lease_lost = omega arith
application_error-IsRefusal Seconds task_conflict = omega arith
application_error-IsRefusal Seconds _ = omega arith

module _ {Seconds : Type 0} (codec : Codec) (ctx : Context) where
  -- The state is the stores, or holds them.
  module _ {S : Type 0} (stores_of : S → Stores) (s : S) where
    abbrev pub Steps : Option Operation → (S → Response Seconds × S) → Type 0
    Steps asked k = IsStep codec (IsRefusal (k s).0) ctx asked (stores_of s) (stores_of (k s).1)

    pub with_body-IsStep :
        {A : Type 0} (decoded : Option A) (k : A → S → Response Seconds × S)
        (ask : A → Option Operation)
        → ((a : A) → Steps (ask a) (k a))
        → Steps (of_body decoded ask) (with_body decoded k)
    with_body-IsStep none k ask h = refused (omega arith) refl
    with_body-IsStep (some a) k ask h = h a

    pub with_duration-IsStep :
        (d : Result ℤ) (k : ℤ → S → Response Seconds × S) (ask : ℤ → Option Operation)
        → ((n : ℤ) → Steps (ask n) (k n))
        → Steps (of_duration d ask) (with_duration d k)
    with_duration-IsStep (ok n) k ask h = h n
    with_duration-IsStep (err e) k ask h = refused (application_error-IsRefusal Seconds e) refl

    guarded-IsStep :
        (b c : Bool) (x y : Response Seconds) (z : Response Seconds × S) (asked : Option Operation)
        → IsRefusal x
        → IsRefusal y
        → Steps asked (λ _. z)
        → Steps asked (λ _. if not b then (x, s) else if not c then (y, s) else z)
    guarded-IsStep false c x y z asked p q h = refused p refl
    guarded-IsStep true false x y z asked p q h = refused q refl
    guarded-IsStep true true x y z asked p q h = h

    pub worker_call-IsStep :
        {A : Type 0} (h : Handler) (r : Request) (decoded : Option A)
        (k : A → S → Response Seconds × S) (ask : A → Option Operation)
        → ((a : A) → Steps (ask a) (k a))
        → Steps (of_body decoded ask) (worker_call h r decoded k)
    worker_call-IsStep h r decoded k ask each =
        guarded-IsStep h.worker_task_service (authorize_worker h r) _ _ (with_body decoded k s) _
          (omega arith) (omega arith) (with_body-IsStep decoded k ask each)

-- The mux finds no handler, or the handler answers with an error.
abbrev pub IsRefused : {Seconds : Type 0} → Answer Seconds → Type 0
IsRefused unmatched = Unit
IsRefused delegated = ⊥
IsRefused (handled response) = IsRefusal response

abbrev pub own : Stores → Stores
own s = s

abbrev pub is_worker : Endpoint → Bool
is_worker Endpoint.claim = true
is_worker Endpoint.heartbeat = true
is_worker Endpoint.progress = true
is_worker Endpoint.complete = true
is_worker Endpoint.fail = true
is_worker Endpoint.release = true
is_worker _ = false
