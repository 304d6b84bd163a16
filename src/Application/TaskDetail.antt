-- ===== src/Application/TaskDetail.antt =====
-- internal/application/task_service.go: `GetTaskDetail` and its diagnostics. A nil pointer to a time
-- or to a Boolean is `none`.
pub mod Facts
use taskpulse.Prelude.{
  ℕ, ◌-◌, ◌/◌, ◌^◌, String, Bool, true, false, not, ◌&&◌, ◌||◌, Option, none, some, List, [], ◌∷◌,
  ltb, is_empty, is_some, if◌then◌else◌, reverse,
}
use taskpulse.Result.{Result, ok, err, Context, Exec, return, ◌>>=◌}
use taskpulse.Task.{Task, TaskStatus, is_retrying}
use taskpulse.Event.{TaskEvent, EventType, task_retrying, task_failed}
use taskpulse.Store.Both.{Stores, on_events}
use taskpulse.Store.Events.{list_by_task_id}
use taskpulse.Application.TaskService.{get_task}

-- The payloads that the diagnostics look for.
pub record FailurePayload : Type 0 where
  pub error_code : String
  pub retryable : Option Bool

pub record WorkerPayload : Type 0 where
  pub worker_id : String
  pub lease_until : Option ℕ

-- `json.Unmarshal` into them; a missing field is empty or nil.
pub record DetailCodec : Type 0 where
  pub unmarshal_failure : String → Option FailurePayload
  pub unmarshal_worker : String → Option WorkerPayload

pub record TaskDetailResult : Type 0 where
  pub id : String
  pub idempotency_key : String
  pub workflow : String
  pub status : TaskStatus
  pub input : String
  pub result : String
  pub result_ref : String
  pub error_message : String
  pub error_code : String
  pub retryable : Option Bool
  pub progress : ℕ
  pub retry_count : ℕ
  pub max_retries : ℕ
  pub available_at : ℕ
  pub next_retry_at : Option ℕ
  pub version : ℕ
  pub worker_id : String
  pub lease_until : Option ℕ
  pub last_heartbeat_at : Option ℕ
  pub queue_duration_ms : ℕ
  pub execution_duration_ms : ℕ
  pub total_duration_ms : ℕ
  pub created_at : ℕ
  pub updated_at : ℕ
  pub started_at : Option ℕ
  pub finished_at : Option ℕ

-- `end.Sub(start)`, which stops at the largest duration.
abbrev pub non_negative_duration : ℕ → ℕ → ℕ
non_negative_duration start end =
    if ltb end start then 0 else if ltb (2 ^ 63 - 1) (end - start) then 2 ^ 63 - 1 else end - start

abbrev pub whole_ms : ℕ → ℕ
whole_ms d = d / 1000000

-- `value := fallback; if p != nil { value = *p }`
abbrev pub or_else : Option ℕ → ℕ → ℕ
or_else none fallback = fallback
or_else (some at) fallback = at

abbrev is_task_retrying : EventType → Bool
is_task_retrying task_retrying = true
is_task_retrying _ = false

-- The events that the loop does not skip by their type.
abbrev tells_failure : EventType → Bool
tells_failure task_retrying = true
tells_failure task_failed = true
tells_failure _ = false

-- A retrying event without the flag is retryable.
abbrev retryable_of : EventType → Option Bool → Option Bool
retryable_of type none = if is_task_retrying type then some true else none
retryable_of type (some r) = some r

abbrev pub failure_in : Option FailurePayload → Option FailurePayload
failure_in none = none
failure_in (some p) = if is_empty p.error_code then none else some p

abbrev pub set_failure : TaskEvent → FailurePayload → TaskDetailResult → TaskDetailResult
set_failure e p r = record r {
  error_code = p.error_code;
  retryable = retryable_of e.type p.retryable;
}

-- What an event adds to the result.
abbrev pub set_worker : WorkerPayload → TaskDetailResult → TaskDetailResult
set_worker p r = record r {
  worker_id =
      if is_empty r.worker_id && not (is_empty p.worker_id) then p.worker_id else r.worker_id;
  lease_until =
      if not (is_some r.lease_until) && is_some p.lease_until then p.lease_until else r.lease_until;
}

abbrev pub plain_detail : Task → TaskDetailResult
plain_detail t = record {
  id = t.id;
  idempotency_key = t.idempotency_key;
  workflow = t.workflow;
  status = t.status;
  input = t.input;
  result = t.result;
  result_ref = t.result;
  error_message = t.error_message;
  error_code = "";
  retryable = none;
  progress = t.progress;
  retry_count = t.retry_count;
  max_retries = t.max_retries;
  available_at = t.available_at;
  next_retry_at = if is_retrying t.status then some t.available_at else none;
  version = t.version;
  worker_id = t.lease_owner;
  lease_until = t.lease_expires_at;
  last_heartbeat_at = t.last_heartbeat_at;
  queue_duration_ms = 0;
  execution_duration_ms = 0;
  total_duration_ms = 0;
  created_at = t.created_at;
  updated_at = t.updated_at;
  started_at = t.started_at;
  finished_at = t.finished_at;
}

-- `end` is the end of the task or now.
abbrev pub with_durations : Task → ℕ → TaskDetailResult → TaskDetailResult
with_durations t end r = record r {
  queue_duration_ms = whole_ms (non_negative_duration t.created_at (or_else t.started_at end));
  execution_duration_ms = elim t.started_at [
    | none ↦ 0
    | some at ↦ whole_ms (non_negative_duration at end)
  ];
  total_duration_ms = whole_ms (non_negative_duration t.created_at end);
}

module _ (codec : DetailCodec) where
  open codec use {unmarshal_failure, unmarshal_worker}

  -- What the loop takes from an event, if it does not skip it.
  unfoldable pub failure_of : TaskEvent → Option FailurePayload
  failure_of e = if tells_failure e.type then failure_in (unmarshal_failure e.payload) else none

  -- The loop, from the last event on.
  unfoldable pub failure_loop : List TaskEvent → TaskDetailResult → TaskDetailResult
  unfolding failure_of
  failure_loop [] r = r
  failure_loop (e ∷ es) r = elim (failure_of e) [
    | none ↦ failure_loop es r
    | some p ↦ set_failure e p r
  ]

  unfoldable pub populate_failure_diagnostics : List TaskEvent → TaskDetailResult → TaskDetailResult
  unfolding failure_loop
  populate_failure_diagnostics events r = failure_loop (reverse events) r

  unfoldable pub worker_loop : List TaskEvent → TaskDetailResult → TaskDetailResult
  worker_loop [] r = r
  worker_loop (e ∷ es) r = elim (unmarshal_worker e.payload) [
    | none ↦ worker_loop es r
    | some p ↦
        let u = set_worker p r in
        let rest = worker_loop es u in
        if not (is_empty u.worker_id) && is_some u.lease_until then u else rest
  ]

  unfoldable pub populate_worker_diagnostics : List TaskEvent → TaskDetailResult → TaskDetailResult
  unfolding worker_loop
  populate_worker_diagnostics events r = worker_loop (reverse events) r

  unfoldable pub new_task_detail_result : Task → List TaskEvent → ℕ → TaskDetailResult
  unfolding populate_failure_diagnostics populate_worker_diagnostics
  new_task_detail_result t events now =
      with_durations t (or_else t.finished_at now)
        (populate_worker_diagnostics events (populate_failure_diagnostics events (plain_detail t)))

  unfoldable pub get_task_detail : Context → String → ℕ → Exec Stores TaskDetailResult
  unfolding new_task_detail_result get_task list_by_task_id
  get_task_detail ctx task_id now = do
    t ← get_task ctx task_id
    events ← on_events (list_by_task_id ctx task_id)
    return (new_task_detail_result t events now)
