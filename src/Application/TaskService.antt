-- ===== src/Application/TaskService.antt =====
-- internal/application/task_service.go: the operations on tasks and their events. Each call of the
-- clock and each new id is an argument. The lists of tasks, the
-- statistics and the details of a task are in modules of their own.
pub mod Effects
use taskpulse.Prelude.{
  ℕ, String, Bool, true, false, not, ◌&&◌, ◌||◌, Option, none, some, List, ℤ, is_neg, ltb, text_eq,
  trim_space, is_empty, byte_length, if◌then◌else◌,
}
use taskpulse.Result.{
  Error, Result, ok, err, Context, Exec, return, lift, ◌>>=◌, ◌>>◌, fail_if, invalid_input,
}
use taskpulse.Task.{Task, new_task}
use taskpulse.Event.{Json, TaskEvent, task_created, new_task_event}
use taskpulse.Store.Tasks.{get}
use taskpulse.Store.Events.{list_by_task_id}
use taskpulse.Store.Both.{Stores, on_tasks, on_events}
use taskpulse.Store.Creation.{TaskCreationResult, create_task_with_event}
use taskpulse.Store.Cancellation.{cancel_task_with_event}

pub record CreateTaskInput : Type 0 where
  pub idempotency_key : String
  pub workflow : String
  pub input : String
  pub max_retries : ℤ

pub record CreateTaskResult : Type 0 where
  pub task : Task
  pub created : Bool

-- The time of the call, and the two ids it draws.
pub record Fresh : Type 0 where
  pub now : ℕ
  pub task_id : String
  pub event_id : String

module _ (json : Json) (ctx : Context) where
  -- What `CreateTask` hands to the store.
  unfoldable pub hand_in : Task → Result TaskEvent → Exec Stores CreateTaskResult
  unfolding create_task_with_event
  hand_in t event = do
    e ← lift event
    r ← create_task_with_event json ctx (some t) (some e)
    return (record { task = r.task; created = r.created })

  unfoldable pub create_task : CreateTaskInput → Fresh → Exec Stores CreateTaskResult
  unfolding hand_in new_task new_task_event
  create_task i fresh = do
    fail_if (is_empty i.workflow) (invalid_input "workflow is required")
    fail_if (is_neg i.max_retries) (invalid_input "max retries cannot be negative")
    fail_if
        (not (is_empty i.idempotency_key)
          && not (text_eq (trim_space i.idempotency_key) i.idempotency_key))
        (invalid_input "idempotency key cannot have surrounding whitespace")
    fail_if (not (is_empty i.idempotency_key) && ltb 128 (byte_length i.idempotency_key))
        (invalid_input "idempotency key exceeds 128 bytes")
    t ← lift (new_task fresh.task_id i.workflow i.input i.max_retries fresh.now)
    hand_in (record t { idempotency_key = i.idempotency_key })
        (new_task_event fresh.event_id t.id task_created "task created" "{}" t.progress fresh.now)

unfoldable pub get_task : Context → String → Exec Stores Task
unfolding get
get_task ctx task_id = do
  fail_if (is_empty task_id) (invalid_input "task id is required")
  on_tasks (get ctx task_id)

unfoldable pub cancel_task : Context → String → String → ℕ → Exec Stores Task
unfolding cancel_task_with_event
cancel_task ctx task_id event_id now = do
  fail_if (is_empty task_id) (invalid_input "task id is required")
  r ← cancel_task_with_event ctx task_id event_id now
  return r.task

unfoldable pub list_task_events : Context → String → Exec Stores (List TaskEvent)
unfolding get list_by_task_id
list_task_events ctx task_id = do
  fail_if (is_empty task_id) (invalid_input "task id is required")
  _ ← on_tasks (get ctx task_id)
  on_events (list_by_task_id ctx task_id)
