-- ===== src/Application/WorkerTasks/Operations/Legal.antt =====
-- The changes that the worker operations make are legal steps of a running task.
use taskpulse.Prelude.{ℕ, String, ◌≤◌, ◌≡◌, refl, true, arith}
use taskpulse.Result.{ok}
use taskpulse.Task.{
  Task, succeeded, failed, is_running, terminal_statuses, move_to, requeue_for_release,
}
use taskpulse.Task.Legal.{IsLegal}

pub completed_IsLegal :
    (p t : Task) (result : String) (now : ℕ)
    → is_running p.status ≡ true
    → move_to (record p { result = result; progress = 100 }) succeeded now ≡ ok t
    → IsLegal p t
unfolding move_to terminal_statuses
completed_IsLegal p t result now r e = record {
  live = ground arith;
  same_id = ground arith;
  same_version = ground arith;
  same_key = ground arith;
  same_workflow = ground arith;
  same_input = ground arith;
  same_budget = ground arith;
  same_creation = ground arith;
  sound = λ w. ground arith;
}

pub failed_IsLegal :
    (p t : Task) (message : String) (now : ℕ)
    → is_running p.status ≡ true
    → move_to (record p { error_message = message }) failed now ≡ ok t
    → IsLegal p t
unfolding move_to terminal_statuses
failed_IsLegal p t message now r e = record {
  live = ground arith;
  same_id = ground arith;
  same_version = ground arith;
  same_key = ground arith;
  same_workflow = ground arith;
  same_input = ground arith;
  same_budget = ground arith;
  same_creation = ground arith;
  sound = λ w. ground arith;
}

pub released_IsLegal : (p t : Task) (now : ℕ) → requeue_for_release p now ≡ ok t → IsLegal p t
unfolding requeue_for_release terminal_statuses
released_IsLegal p t now e = record {
  live = ground arith;
  same_id = ground arith;
  same_version = ground arith;
  same_key = ground arith;
  same_workflow = ground arith;
  same_input = ground arith;
  same_budget = ground arith;
  same_creation = ground arith;
  sound = λ w. ground arith;
}

pub progressed_IsLegal :
    (p : Task) (progress now : ℕ)
    → is_running p.status ≡ true
    → progress ≤ 99
    → IsLegal p (record p { progress = progress; updated_at = now })
unfolding terminal_statuses
progressed_IsLegal p progress now r small = record {
  live = ground arith;
  same_id = refl;
  same_version = refl;
  same_key = refl;
  same_workflow = refl;
  same_input = refl;
  same_budget = refl;
  same_creation = refl;
  sound = λ w. ground arith;
}
