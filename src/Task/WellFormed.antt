-- ===== src/Task/WellFormed.antt =====
-- What holds of every task that the methods of internal/domain/task.go lead to.
use taskpulse.Prelude.{ℕ, ◌≤◌, ◌≡◌, String, true, false, none, ℤ, arith, is_some}
use taskpulse.Result.{ok, is_ok}
use taskpulse.Task.{
  TaskStatus, queued, Task, is_running, terminal_statuses, new_task, move_to, schedule_retry,
  requeue_for_release,
}

pub record IsWellFormed (t : Task) : Type 0 where
  -- Only a running task is leased.
  pub unowned : is_running t.status ≡ false → t.lease_owner ≡ ""
  pub unleased : is_running t.status ≡ false → t.lease_expires_at ≡ none
  -- A task has an end time exactly when its status is final.
  pub ended : is_some t.finished_at ≡ terminal_statuses t.status
  pub begun : is_running t.status ≡ true → is_some t.started_at ≡ true
  pub budgeted : t.retry_count ≤ t.max_retries
  pub progressed : t.progress ≤ 100

pub new_task-IsWellFormed :
    (id workflow input : String) (max_retries : ℤ) (now : ℕ) (t : Task)
    → new_task id workflow input max_retries now ≡ ok t
    → IsWellFormed t
unfolding new_task terminal_statuses
new_task-IsWellFormed id workflow input max_retries now t e = ground arith

pub move_to-IsWellFormed :
    (t u : Task) (next : TaskStatus) (now : ℕ)
    → move_to t next now ≡ ok u
    → IsWellFormed t
    → IsWellFormed u
unfolding move_to terminal_statuses
move_to-IsWellFormed t u queued now e h = ground arith
move_to-IsWellFormed t u next now e h = ground arith

pub schedule_retry-IsWellFormed :
    (t u : Task) (now available_at : ℕ)
    → schedule_retry t now available_at ≡ ok u
    → IsWellFormed t
    → IsWellFormed u
unfolding schedule_retry terminal_statuses
schedule_retry-IsWellFormed t u now available_at e h = ground arith

pub requeue_for_release-IsWellFormed :
    (t u : Task) (now : ℕ) → requeue_for_release t now ≡ ok u → IsWellFormed t → IsWellFormed u
unfolding requeue_for_release terminal_statuses
requeue_for_release-IsWellFormed t u now e h = ground arith

-- A task in a final status refuses every change.
pub terminal_refuses :
    (t : Task) (next : TaskStatus) (now available_at : ℕ)
    → terminal_statuses t.status ≡ true
    → (is_ok (move_to t next now) ≡ false)
      × (is_ok (schedule_retry t now available_at) ≡ false)
      × (is_ok (requeue_for_release t now) ≡ false)
unfolding terminal_statuses move_to schedule_retry requeue_for_release
terminal_refuses t next now available_at h = (ground arith, ground arith, ground arith)
