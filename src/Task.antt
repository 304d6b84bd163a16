-- ===== src/Task.antt =====
-- internal/domain/task.go and task_claim.go: the task record and its status transitions.
-- A `time.Time` is the number of nanoseconds since the zero time, which is 0. `RetryCount`,
-- `MaxRetries` and `Progress` are stored as natural numbers, since `NewTask` refuses a negative
-- budget and nothing else makes them negative. A nil `json.RawMessage` is the empty text.
use taskpulse.Prelude.{
  ℕ, ◌+◌, String, Bool, true, false, not, Option, none, some, ℤ, is_neg, magnitude, ltb, leb, ◌==◌,
  is_empty, is_some, if◌then◌else◌,
}
use taskpulse.Result.{
  Result, ok, err, task_id_required, workflow_required, negative_max_retries, invalid_transition,
  retry_budget_exhausted, invalid_retry_time, not_running, release_time_required,
}
pub mod WellFormed
pub mod Legal

-- The seven constants; stored tasks have no other status.
pub data TaskStatus : Type 0 where
  queued running succeeded partial failed canceled retrying : TaskStatus

-- `invalid` is the empty kind that `claimNextLocked` returns beside an error.
pub data ClaimKind : Type 0 where
  initial retry recovery invalid : ClaimKind

-- The text of a constant.
abbrev pub status_text : TaskStatus → String
status_text queued = "queued"
status_text running = "running"
status_text succeeded = "succeeded"
status_text partial = "partially_succeeded"
status_text failed = "failed"
status_text canceled = "canceled"
status_text retrying = "retrying"

pub record Task : Type 0 where
  pub id : String
  pub idempotency_key : String
  pub workflow : String
  pub status : TaskStatus
  pub input : String
  pub result : String
  pub error_message : String
  pub progress : ℕ
  pub retry_count : ℕ
  pub max_retries : ℕ
  pub available_at : ℕ
  pub version : ℕ
  pub lease_owner : String
  pub lease_expires_at : Option ℕ
  pub last_heartbeat_at : Option ℕ
  pub lease_token : String
  pub task_id : String
  pub lease_until : Option ℕ
  pub created_at : ℕ
  pub updated_at : ℕ
  pub started_at : Option ℕ
  pub finished_at : Option ℕ

abbrev pub is_queued : TaskStatus → Bool
is_queued queued = true
is_queued _ = false

abbrev pub is_running : TaskStatus → Bool
is_running running = true
is_running _ = false

abbrev pub is_canceled : TaskStatus → Bool
is_canceled canceled = true
is_canceled _ = false

abbrev pub is_retrying : TaskStatus → Bool
is_retrying retrying = true
is_retrying _ = false

-- The map `terminalStatuses`.
unfoldable pub terminal_statuses : TaskStatus → Bool
terminal_statuses succeeded = true
terminal_statuses partial = true
terminal_statuses failed = true
terminal_statuses canceled = true
terminal_statuses _ = false

unfoldable pub is_terminal : Option Task → Bool
unfolding terminal_statuses
is_terminal none = false
is_terminal (some t) = terminal_statuses t.status

unfoldable pub new_task : String → String → String → ℤ → ℕ → Result Task
new_task id workflow input max_retries now =
    if is_empty id
    then err task_id_required
    else if is_empty workflow
    then err workflow_required
    else if is_neg max_retries
    then err negative_max_retries
    else ok (record {
      id = id;
      idempotency_key = "";
      workflow = workflow;
      status = queued;
      input = if is_empty input then "{}" else input;
      result = "";
      error_message = "";
      progress = 0;
      retry_count = 0;
      max_retries = magnitude max_retries;
      available_at = now;
      version = 0;
      lease_owner = "";
      lease_expires_at = none;
      last_heartbeat_at = none;
      lease_token = "";
      task_id = "";
      lease_until = none;
      created_at = now;
      updated_at = now;
      started_at = none;
      finished_at = none;
    })

unfoldable pub can_transition : TaskStatus → TaskStatus → Bool
can_transition queued running = true
can_transition queued canceled = true
can_transition running succeeded = true
can_transition running partial = true
can_transition running failed = true
can_transition running canceled = true
can_transition running retrying = true
can_transition retrying running = true
can_transition retrying failed = true
can_transition retrying canceled = true
can_transition _ _ = false

-- `if t.StartedAt == nil { t.StartedAt = &now }`
abbrev pub first_start : Option ℕ → ℕ → Option ℕ
first_start none now = some now
first_start (some at) now = some at

finish : Task → ℕ → Task
finish t now = record t { finished_at = some now; lease_owner = ""; lease_expires_at = none }

-- The `switch` of `MoveTo`.
enter : TaskStatus → ℕ → Task → Task
unfolding finish
enter running now t = record t { started_at = first_start t.started_at now }
enter retrying now t = record t { lease_owner = ""; lease_expires_at = none }
enter succeeded now t = finish t now
enter partial now t = finish t now
enter failed now t = finish t now
enter canceled now t = finish t now
enter queued now t = t

-- The task after `MoveTo`, or the error, in which case the task is untouched.
unfoldable pub move_to : Task → TaskStatus → ℕ → Result Task
unfolding can_transition enter finish
move_to t next now =
    if not (can_transition t.status next)
    then err invalid_transition
    else ok (enter next now (record t { status = next; updated_at = now }))

-- What `ScheduleRetry` does once `MoveTo` has succeeded.
abbrev rescheduled : ℕ → Result Task → Result Task
rescheduled available_at (err e) = err e
rescheduled available_at (ok t) =
    ok (record t { retry_count = t.retry_count + 1; available_at = available_at })

unfoldable pub schedule_retry : Task → ℕ → ℕ → Result Task
unfolding move_to
schedule_retry t now available_at =
    if not (ltb now available_at)
    then err invalid_retry_time
    else if leb t.max_retries t.retry_count
    then err retry_budget_exhausted
    else rescheduled available_at (move_to t retrying now)

unfoldable pub requeue_for_release : Task → ℕ → Result Task
requeue_for_release t now =
    if not (is_running t.status)
    then err not_running
    else if now == 0
    then err release_time_required
    else ok (record t {
      status = queued;
      progress = 0;
      error_message = "";
      available_at = now;
      lease_owner = "";
      lease_expires_at = none;
      updated_at = now;
    })
