-- ===== src/Http.antt =====
-- internal/transport/http: the handlers of the server, as functions of the request and the stores.
-- A response is its status and the value that is encoded into its body.
pub mod Decoding
pub mod TaskHandlers
pub mod WorkerHandlers
pub mod Router
pub mod Readings
pub mod Steps
pub mod TaskSteps
pub mod WorkerSteps
pub mod Refinement
pub mod Authorization
use taskpulse.Prelude.{
  ℕ, String, Bool, true, false, not, Option, none, some, List, text_eq, is_empty, trim_space,
  if◌then◌else◌, strip_prefix,
}
use taskpulse.Result.{
  Error, Result, ok, err, invalid_input, invalid_worker_request, task_not_found,
  task_already_exists, idempotency_conflict, task_not_cancelable, lease_lost, task_conflict,
}
use taskpulse.Task.{Task}
use taskpulse.Event.{TaskEvent}
use taskpulse.Store.Both.{Stores}
use taskpulse.Application.TaskLists.{ListTasksResult}
use taskpulse.Application.TaskStats.{TaskStatsResult}
use taskpulse.Application.TaskDetail.{TaskDetailResult}

-- The fields of a `Handler` that are not nil, and its token. The task service is always there.
pub record Handler : Type 0 where
  pub worker_task_service : Bool
  pub claim_metrics : Bool
  pub worker_auth_token : String

unfoldable pub new_handler : Handler
new_handler = record { worker_task_service = false; claim_metrics = false; worker_auth_token = "" }

unfoldable pub new_handler_with_worker : Bool → Handler
new_handler_with_worker service = record {
  worker_task_service = service;
  claim_metrics = false;
  worker_auth_token = "";
}

unfoldable pub with_claim_metrics : Bool → Handler → Handler
with_claim_metrics metrics h = record h { claim_metrics = metrics }

unfoldable pub with_worker_auth_token : String → Handler → Handler
with_worker_auth_token token h = record h { worker_auth_token = trim_space token }

-- What net/http hands to a handler: `r.Header.Get`, `r.URL.Query().Get`, `r.PathValue("task_id")` and
-- the bytes of the body. A missing value is empty.
pub record Request : Type 0 where
  pub header : String → String
  pub query : String → String
  pub task_id : String
  pub body : String

-- `Seconds` is the type of a floating point number of seconds.
pub data Body (Seconds : Type 0) : Type 0 where
  nothing : Body Seconds
  -- `errorResponse` with a text, and with `err.Error()`.
  message : String → Body Seconds
  reason : Error → Body Seconds
  task : Task → Body Seconds
  detail : TaskDetailResult → Body Seconds
  page : ListTasksResult → Body Seconds
  stats : TaskStatsResult Seconds → Body Seconds
  events : List TaskEvent → Body Seconds

pub record Response (Seconds : Type 0) : Type 0 where
  pub status : ℕ
  pub body : Body Seconds

abbrev pub bearer_prefix : String
bearer_prefix = "Bearer "

-- What the request gives behind the prefix is the token, compared in constant time.
abbrev pub is_token : Handler → Option String → Bool
is_token h none = false
is_token h (some provided) = text_eq provided h.worker_auth_token

unfoldable pub authorize_worker : Handler → Request → Bool
unfolding strip_prefix
authorize_worker h r =
    if is_empty h.worker_auth_token
    then true
    else is_token h (strip_prefix bearer_prefix (r.header "Authorization"))

module _ {Seconds : Type 0} where
  abbrev pub write_json : ℕ → Body Seconds → Response Seconds
  write_json status body = record { status = status; body = body }

  abbrev pub write_error : ℕ → String → Response Seconds
  write_error status text = write_json status (message text)

  unfoldable pub write_application_error : Error → Response Seconds
  write_application_error (invalid_input m) = write_json 400 (reason (invalid_input m))
  write_application_error (invalid_worker_request m) =
      write_json 400 (reason (invalid_worker_request m))
  write_application_error task_not_found = write_json 404 (reason task_not_found)
  write_application_error task_already_exists = write_json 409 (reason task_already_exists)
  write_application_error idempotency_conflict = write_json 409 (reason idempotency_conflict)
  write_application_error task_not_cancelable = write_json 409 (reason task_not_cancelable)
  write_application_error lease_lost = write_json 409 (reason lease_lost)
  write_application_error task_conflict = write_json 409 (reason task_conflict)
  write_application_error _ = write_error 500 "internal server error"

  -- `if err != nil { writeApplicationError(w, err); return }`, and then the answer.
  abbrev pub respond : {S A : Type 0} → (A → Response Seconds) → Result A × S → Response Seconds × S
  respond answer (ok a, s) = (answer a, s)
  respond answer (err e, s) = (write_application_error e, s)
