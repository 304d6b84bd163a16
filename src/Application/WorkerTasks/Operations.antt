-- ===== src/Application/WorkerTasks/Operations.antt =====
-- The six operations of internal/application/worker_task_service.go. Errors wrapped with a message
-- keep the message. A retry scheduler may be absent.
pub mod Legal
pub mod Leased
pub mod Effects
pub mod Replay
pub mod Stale
use taskpulse.Prelude.{
  ℕ, String, Bool, true, false, not, ◌&&◌, ◌||◌, Option, none, some, List, [], ◌∷◌, ℤ, pos, is_neg,
  is_nonpos, magnitude, leb, ◌==◌, text_eq, text_append, trim_space, is_empty, is_blank,
  if◌then◌else◌, ◌≡◌, lookup,
}
use taskpulse.Result.{
  Error, Result, ok, err, Context, Exec, return, fail, lift, require, ◌>>=◌, ◌>>◌, fail_if,
  task_conflict, invalid_worker_request, retry_budget_exhausted, marshal_failed,
}
use taskpulse.Task.{
  Task, TaskStatus, is_running, succeeded, retrying, failed, queued, move_to, requeue_for_release,
}
use taskpulse.Event.{
  Json, Fields, Field, text, number, flag, TaskEvent, EventType, task_succeeded, task_progress,
  task_failed, new_task_event, with_payload, new_task_released_event,
}
use taskpulse.Store.Tasks.{ClaimOptions, RenewLeaseOptions, get, renew_lease}
use taskpulse.Store.Both.{Stores, on_tasks}
use taskpulse.Store.Effect.{Effect}
use taskpulse.Store.Transition.{claim_next_with_event, update_task_with_event}
use taskpulse.Application.Codec.{Codec}
use taskpulse.Application.WorkerTasks.Tokens.{
  with_lease_token, validate_lease_token, resolve_lease_version, replay_worker_operation,
  prepare_running_task,
}

-- `Schedule` of the interface `TaskRetryScheduler`: the task, the error's code and message, and the
-- delay that the worker asks for. The result is the task as it was changed.
abbrev pub RetryScheduling : Type 0
RetryScheduling = Task → String → String → ℤ → Exec Stores Task

-- What `FailTask` relies on: a schedule for a stored, running task has one effect, or none, and a
-- report of an exhausted budget comes before any change.
pub record IsScheduling (scheduling : RetryScheduling) : Type 0 where
  pub effect :
      (t : Task) (code message : String) (retry_after : ℤ) (s : Stores)
      → lookup t.id s.task_store.tasks ≡ some t
      → is_running t.status ≡ true
      → Effect s (scheduling t code message retry_after s).1
  pub unspent :
      (t : Task) (code message : String) (retry_after : ℤ) (s s' : Stores)
      → scheduling t code message retry_after s ≡ (err retry_budget_exhausted, s')
      → s' ≡ s

pub record ClaimTaskInput : Type 0 where
  pub worker_id : String
  pub workflow : String
  pub lease_duration : ℤ

pub record HeartbeatTaskInput : Type 0 where
  pub task_id : String
  pub worker_id : String
  pub lease_token : String
  pub lease_duration : ℤ

pub record CompleteTaskInput : Type 0 where
  pub task_id : String
  pub worker_id : String
  pub lease_token : String
  pub output : String
  pub result_ref : String

pub record ReportProgressInput : Type 0 where
  pub task_id : String
  pub worker_id : String
  pub lease_token : String
  pub progress : ℤ
  pub message : String

pub record FailTaskInput : Type 0 where
  pub task_id : String
  pub worker_id : String
  pub lease_token : String
  pub error_code : String
  pub error_message : String
  pub retryable : Bool
  pub retry_after : ℤ

pub record ReleaseTaskInput : Type 0 where
  pub task_id : String
  pub worker_id : String
  pub lease_token : String

-- The two readings of the clock in one operation: the check of the lease, and the change.
pub record Clock : Type 0 where
  pub checked_at : ℕ
  pub now : ℕ

-- The replayed task if its answer agrees with the request, and otherwise the operation itself.
abbrev pub or_replay : Option Task → (Task → Bool) → Exec Stores Task → Exec Stores Task
or_replay none agrees fresh s = fresh s
or_replay (some t) agrees fresh s = if agrees t then (ok t, s) else (err task_conflict, s)

-- `jsonSemanticallyEqual`
abbrev pub same_text : Option String → Option String → Bool
same_text (some left) (some right) = text_eq left right
same_text (some left) none = false
same_text none right = false

abbrev pub result_of : CompleteTaskInput → String
result_of i =
    if is_empty i.result_ref then (if is_empty i.output then "{}" else i.output) else i.result_ref

abbrev pub message_of : ReportProgressInput → String
message_of i = if is_blank i.message then "task progress updated" else trim_space i.message

abbrev pub failure_message : FailTaskInput → String
failure_message i = text_append i.error_code (text_append ": " i.error_message)

abbrev pub is_exhausted : Error → Bool
is_exhausted retry_budget_exhausted = true
is_exhausted _ = false

module _ (codec : Codec) (ctx : Context) where
  open codec use {json}

  unfoldable pub claim_task : ClaimTaskInput → ℕ → String → Exec Stores Task
  claim_task i now event_id = do
    fail_if (is_blank i.worker_id || is_blank i.workflow || is_nonpos i.lease_duration)
        (invalid_worker_request "")
    t ←
        claim_next_with_event json ctx
          (record {
            worker_id = i.worker_id;
            workflow = trim_space i.workflow;
            now = now;
            lease_duration = i.lease_duration;
          })
          event_id
    return (with_lease_token codec t)

  -- The stored task, read again and given its token.
  unfoldable pub get_leased : String → Exec Stores Task
  get_leased id = do t ← on_tasks (get ctx id); return (with_lease_token codec t)

  unfoldable pub heartbeat_task : HeartbeatTaskInput → ℕ → Exec Stores Task
  heartbeat_task i now = do
    fail_if (is_empty i.task_id || is_blank i.worker_id || is_nonpos i.lease_duration)
        (invalid_worker_request "")
    validate_lease_token codec ctx i.task_id i.worker_id i.lease_token
    on_tasks (
        renew_lease ctx (record {
          task_id = i.task_id;
          worker_id = i.worker_id;
          now = now;
          lease_duration = i.lease_duration;
        }))
    get_leased i.task_id

  -- The task that this worker holds the lease of, by its token.
  unfoldable pub leased_task : String → String → String → ℕ → Exec Stores Task
  leased_task id worker token checked_at = do
    version ← resolve_lease_version codec ctx id worker token
    prepare_running_task codec ctx id worker version checked_at

  abbrev pub value_text : Option json.Value → Option String
  value_text none = none
  value_text (some v) = json.marshal_value v

  unfoldable pub json_semantically_equal : String → String → Bool
  json_semantically_equal left right =
      same_text (value_text (json.unmarshal left)) (value_text (json.unmarshal right))

  -- `mustMarshalEventPayload`
  abbrev pub must_marshal : Fields → String
  must_marshal fields = elim (json.marshal fields) [ none ↦ "{}" | some payload ↦ payload ]

  -- The change of the task and its event, by which the operations end.
  unfoldable pub save : Task → Result TaskEvent → Exec Stores Task
  save t event = do e ← lift event; update_task_with_event ctx (some t) (some e); return t

  unfoldable pub complete_fresh : CompleteTaskInput → Clock → String → Exec Stores Task
  complete_fresh i clock event_id = do
    t ← leased_task i.task_id i.worker_id i.lease_token clock.checked_at
    moved ← lift (move_to (record t { result = result_of i; progress = 100 }) succeeded clock.now)
    save moved (
        new_task_event event_id moved.id task_succeeded "task succeeded by external worker"
          (must_marshal (("worker_id", text i.worker_id) ∷ [])) moved.progress clock.now)

  unfoldable pub complete_task : CompleteTaskInput → Clock → String → Exec Stores Task
  complete_task i clock event_id = do
    replayed ←
        replay_worker_operation codec ctx i.task_id i.worker_id i.lease_token (succeeded ∷ [])
    or_replay replayed (λ t. json_semantically_equal t.result (result_of i))
        (complete_fresh i clock event_id)

  -- The event of a progress report, or the error of its payload.
  unfoldable pub progress_event : ReportProgressInput → ℕ → String → Task → Result TaskEvent
  progress_event i now event_id t =
      with_payload
        (json.marshal (
          ("progress", number (magnitude i.progress))
          ∷ ("message", text (message_of i))
          ∷ ("worker_id", text i.worker_id)
          ∷ []))
        (λ payload.
          new_task_event event_id t.id task_progress (message_of i) payload (magnitude i.progress)
            now)

  unfoldable pub report_progress : ReportProgressInput → Clock → String → Exec Stores Task
  report_progress i clock event_id = do
    fail_if (is_neg i.progress || leb 100 (magnitude i.progress))
        (invalid_worker_request "progress must be between 0 and 99")
    t ← leased_task i.task_id i.worker_id i.lease_token clock.checked_at
    let moved : Task = record t { progress = magnitude i.progress; updated_at = clock.now }
    saved ← save moved (progress_event i clock.now event_id moved)
    get_leased saved.id

  unfoldable pub failure_event : FailTaskInput → ℕ → String → Task → Result TaskEvent
  failure_event i now event_id t =
      with_payload
        (json.marshal (
          ("error_code", text i.error_code)
          ∷ ("retryable", flag i.retryable)
          ∷ ("worker_id", text i.worker_id)
          ∷ []))
        (λ payload.
          new_task_event event_id t.id task_failed "task failed by external worker" payload
            t.progress now)

  -- The task fails for good.
  unfoldable pub fail_for_good : FailTaskInput → ℕ → String → Task → Exec Stores Task
  fail_for_good i now event_id t = do
    moved ← lift (move_to (record t { error_message = failure_message i }) failed now)
    save moved (failure_event i now event_id moved)

  -- A scheduled retry is the answer; only an exhausted budget leads on to the failure.
  unfoldable pub after_schedule : Result Task → Exec Stores Task → Exec Stores Task
  after_schedule (ok t) give_up s = on_tasks (get ctx t.id) s
  after_schedule (err e) give_up s = if is_exhausted e then give_up s else (err e, s)

  unfoldable pub retry_or_fail :
      Option RetryScheduling → FailTaskInput → ℕ → String → Task → Exec Stores Task
  retry_or_fail none i now event_id t s = fail_for_good i now event_id t s
  retry_or_fail (some scheduling) i now event_id t s =
      if not i.retryable
      then fail_for_good i now event_id t s
      else (let (r, s') = scheduling t i.error_code i.error_message i.retry_after s in
          after_schedule r (fail_for_good i now event_id t) s')

  unfoldable pub fail_fresh :
      Option RetryScheduling → FailTaskInput → Clock → String → Exec Stores Task
  fail_fresh scheduler i clock event_id = do
    t ← leased_task i.task_id i.worker_id i.lease_token clock.checked_at
    fail_if (is_blank i.error_code || is_blank i.error_message)
        (invalid_worker_request "error_code and error_message are required")
    fail_if (is_neg i.retry_after) (invalid_worker_request "retry_after cannot be negative")
    retry_or_fail scheduler i clock.now event_id t

  unfoldable pub fail_task :
      Option RetryScheduling → FailTaskInput → Clock → String → Exec Stores Task
  fail_task scheduler i clock event_id = do
    replayed ←
        replay_worker_operation codec ctx i.task_id i.worker_id i.lease_token
          (retrying ∷ failed ∷ [])
    or_replay replayed (λ t. text_eq t.error_message (failure_message i))
        (fail_fresh scheduler i clock event_id)

  unfoldable pub release_fresh : ReleaseTaskInput → Clock → String → Exec Stores Task
  release_fresh i clock event_id = do
    t ← leased_task i.task_id i.worker_id i.lease_token clock.checked_at
    moved ← lift (requeue_for_release t clock.now)
    saved ← save moved (new_task_released_event event_id (some moved) clock.now)
    on_tasks (get ctx saved.id)

  unfoldable pub release_task : ReleaseTaskInput → Clock → String → Exec Stores Task
  release_task i clock event_id = do
    replayed ← replay_worker_operation codec ctx i.task_id i.worker_id i.lease_token (queued ∷ [])
    or_replay replayed (λ t. true) (release_fresh i clock event_id)
