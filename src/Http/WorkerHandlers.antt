-- ===== src/Http/WorkerHandlers.antt =====
-- internal/transport/http/handler.go: the handlers of the protocol of workers.
use taskpulse.Prelude.{ℕ, String, Bool, not, Option, ℤ, List, ◌∷◌, if◌then◌else◌}
use taskpulse.Result.{Result, ok, err, Context, no_task_available}
use taskpulse.Task.{Task}
use taskpulse.Store.Both.{Stores}
use taskpulse.Application.Codec.{Codec}
use taskpulse.Application.WorkerTasks.Operations as Service
use taskpulse.Application.WorkerTasks.Operations.{Clock, RetryScheduling}
use taskpulse.Metrics.{Recording, claim_attempt, claim_miss}
use taskpulse.Http.{
  Handler, Request, nothing, task, Response, authorize_worker, write_json, write_error,
  write_application_error, respond,
}
use taskpulse.Http.Decoding.{Decoders, decode_json, parse_lease_duration, parse_optional_duration}
use taskpulse.Http.TaskHandlers.{Handling, with_body}

-- With which every handler of a worker begins: the service is there, the call is authorised, and
-- the body is decoded.
abbrev pub worker_call :
    {Seconds S A : Type 0}
    → Handler
    → Request
    → Option A
    → (A → S → Response Seconds × S)
    → S
    → Response Seconds × S
worker_call h r decoded k s =
    if not h.worker_task_service
    then (write_error 404 "worker protocol is not configured", s)
    else if not (authorize_worker h r)
    then (write_error 401 "worker authentication is required", s)
    else with_body decoded k s

-- `if err != nil { writeApplicationError(w, err); return }` of a duration.
abbrev pub with_duration :
    {Seconds S : Type 0} → Result ℤ → (ℤ → S → Response Seconds × S) → S → Response Seconds × S
with_duration (err e) k s = (write_application_error e, s)
with_duration (ok d) k s = k d s

-- `if h.claimMetrics != nil`
abbrev pub tell : Bool → Recording → List Recording → List Recording
tell metrics m told = if metrics then m ∷ told else told

-- The stores, and what the metrics of claims were told, the last recording first.
pub record Claims : Type 0 where
  pub stores : Stores
  pub told : List Recording

module _ {Seconds : Type 0} where
  abbrev pub task_response : Result Task × Stores → Response Seconds × Stores
  task_response out = respond (λ t. write_json 200 (task t)) out

  -- No task is an answer of its own.
  unfoldable pub claim_response :
      Bool → String → List Recording → Result Task × Stores → Response Seconds × Claims
  claim_response metrics workflow told (err no_task_available, s) = (
    write_json 204 nothing,
    record { stores = s; told = tell metrics (claim_miss workflow) told },
  )
  claim_response metrics workflow told (err e, s) =
      (write_application_error e, record { stores = s; told = told })
  claim_response metrics workflow told (ok t, s) =
      (write_json 200 (task t), record { stores = s; told = told })

module _ {Seconds : Type 0} (codec : Codec) (decoders : Decoders) (ctx : Context) (h : Handler)
    (r : Request) where
  open decoders use {claim, heartbeat, complete, progress, fail, release, at_end, parse_duration}

  unfoldable pub claim_worker_task : ℕ → String → Claims → Response Seconds × Claims
  unfolding decode_json parse_lease_duration claim_response authorize_worker
  claim_worker_task now event_id = worker_call h r (decode_json at_end claim r.body) (λ q.
      with_duration (parse_lease_duration parse_duration q.lease_duration) (λ lease c.
        claim_response h.claim_metrics q.workflow
          (tell h.claim_metrics (claim_attempt q.workflow) c.told)
          (Service.claim_task codec ctx
            (record { worker_id = q.worker_id; workflow = q.workflow; lease_duration = lease }) now
            event_id c.stores)))

  unfoldable pub heartbeat_worker_task : ℕ → Handling Seconds
  unfolding decode_json parse_lease_duration authorize_worker
  heartbeat_worker_task now = worker_call h r (decode_json at_end heartbeat r.body) (λ q.
      with_duration (parse_lease_duration parse_duration q.lease_duration) (λ lease s.
        task_response (
          Service.heartbeat_task codec ctx
            (record {
              task_id = r.task_id;
              worker_id = q.worker_id;
              lease_token = q.lease_token;
              lease_duration = lease;
            })
            now s)))

  -- The service reads the version from the token and not from the request, here and below.
  unfoldable pub complete_worker_task : Clock → String → Handling Seconds
  unfolding decode_json authorize_worker
  complete_worker_task clock event_id = worker_call h r (decode_json at_end complete r.body) (λ q s.
      task_response (
        Service.complete_task codec ctx
          (record {
            task_id = r.task_id;
            worker_id = q.worker_id;
            lease_token = q.lease_token;
            output = q.output;
            result_ref = q.result_ref;
          })
          clock event_id s))

  unfoldable pub report_worker_progress : Clock → String → Handling Seconds
  unfolding decode_json authorize_worker
  report_worker_progress clock event_id =
      worker_call h r (decode_json at_end progress r.body) (λ q s. task_response (
        Service.report_progress codec ctx
          (record {
            task_id = r.task_id;
            worker_id = q.worker_id;
            lease_token = q.lease_token;
            progress = q.progress;
            message = q.message;
          })
          clock event_id s))

  unfoldable pub fail_worker_task : Option RetryScheduling → Clock → String → Handling Seconds
  unfolding decode_json parse_optional_duration authorize_worker
  fail_worker_task scheduler clock event_id = worker_call h r (decode_json at_end fail r.body) (λ q.
      with_duration (parse_optional_duration parse_duration q.retry_after) (λ retry_after s.
        task_response (
          Service.fail_task codec ctx scheduler
            (record {
              task_id = r.task_id;
              worker_id = q.worker_id;
              lease_token = q.lease_token;
              error_code = q.error_code;
              error_message = q.error_message;
              retryable = q.retryable;
              retry_after = retry_after;
            })
            clock event_id s)))

  unfoldable pub release_worker_task : Clock → String → Handling Seconds
  unfolding decode_json authorize_worker
  release_worker_task clock event_id = worker_call h r (decode_json at_end release r.body) (λ q s.
      task_response (
        Service.release_task codec ctx
          (record { task_id = r.task_id; worker_id = q.worker_id; lease_token = q.lease_token })
          clock event_id s))
