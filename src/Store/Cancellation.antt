-- ===== src/Store/Cancellation.antt =====
-- internal/store/task_cancellation_store.go: cancel a task and record the event, once.
pub mod Once
use taskpulse.Prelude.{
  ℕ, String, Bool, true, false, not, ◌||◌, Option, none, some, ◌==◌, is_empty, lookup, insert,
  if◌then◌else◌,
}
use taskpulse.Result.{
  Error, Result, ok, err, Context, Exec, return, require, ◌>>=◌, ◌>>◌, fail_if, check,
  task_not_found, invalid_event_id, invalid_cancellation_time, task_not_cancelable,
  event_already_exists,
}
use taskpulse.Task.{Task, canceled, is_queued, is_running, is_retrying, is_canceled, move_to}
use taskpulse.Event.{TaskEvent, new_task_canceled_event}
use taskpulse.Store.Tasks.{MemoryTaskStore, next_version}
use taskpulse.Store.Both.{Stores, event_exists, add_event}

pub record TaskCancellationResult : Type 0 where
  pub task : Task
  pub canceled : Bool

abbrev set_task : String → Task → Stores → Stores
set_task id t s = record s {
  task_store = record s.task_store { tasks = insert id t s.task_store.tasks };
}

-- The canceled task is in the store when its event is made; without the event it is put back.
finish_cancel : String → Task → Task → Result TaskEvent → Exec Stores TaskCancellationResult
finish_cancel id t previous (err e) s = (err e, set_task id previous s)
finish_cancel id t previous (ok event) s =
    (ok (record { task = t; canceled = true }), add_event event s)

cancel_stored : String → String → ℕ → Task → Result Task → Exec Stores TaskCancellationResult
unfolding finish_cancel new_task_canceled_event
cancel_stored id event_id now previous (err e) s = (err e, s)
cancel_stored id event_id now previous (ok moved) s =
    let t = record moved { version = next_version moved.version } in
    finish_cancel id t previous (new_task_canceled_event event_id (some t) now) (set_task id t s)

cancel_active : String → String → ℕ → Task → Exec Stores TaskCancellationResult
unfolding cancel_stored move_to
cancel_active id event_id now stored s =
    (do
      fail_if
          (not (is_queued stored.status || (is_retrying stored.status || is_running stored.status)))
          task_not_cancelable
      fail_if (event_exists event_id s) event_already_exists
      cancel_stored id event_id now stored (move_to stored canceled now))
      s

-- A task that is canceled already is returned as it is.
answer_stored : String → String → ℕ → Task → Exec Stores TaskCancellationResult
unfolding cancel_active
answer_stored id event_id now stored =
    if is_canceled stored.status
    then return (record { task = stored; canceled = false })
    else cancel_active id event_id now stored

unfoldable pub cancel_task_with_event :
    Context → String → String → ℕ → Exec Stores TaskCancellationResult
unfolding answer_stored
cancel_task_with_event ctx id event_id now s =
    (do
      check ctx
      fail_if (is_empty id) task_not_found
      fail_if (is_empty event_id) invalid_event_id
      fail_if (now == 0) invalid_cancellation_time
      stored ← require (lookup id s.task_store.tasks) task_not_found
      answer_stored id event_id now stored)
      s
