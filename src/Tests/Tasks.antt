-- ===== src/Tests/Tasks.antt =====
-- The task's life, by the methods of internal/domain/task.go.
use taskpulse.Prelude.{◌≡◌, refl, false, pos, some}
use taskpulse.Result.{is_ok}
use taskpulse.Task.{
  Task, running, succeeded, canceled, terminal_statuses, new_task, move_to, schedule_retry,
  requeue_for_release,
}
use taskpulse.Task.WellFormed.{IsWellFormed, terminal_refuses}
use taskpulse.Store.Tasks.{ClaimOptions, available}
use taskpulse.System.TaskHistories.{
  Reached, made, changed, claimed, reported, ended, Reached-IsWellFormed,
}
use taskpulse.Tests.Fixtures.{waiting_task}

abbrev claim_options : ClaimOptions
claim_options = record { worker_id = "w1"; workflow = ""; now = 20; lease_duration = pos 30 }

-- A task that was claimed, reported its progress and succeeded: the lease is gone, the end is there.
abbrev success : Task
success = record waiting_task {
  status = succeeded;
  idempotency_key = "";
  result = "42";
  progress = 100;
  version = 1;
  updated_at = 40;
  started_at = some 20;
  finished_at = some 40;
}

abbrev started_task : Task
started_task = record waiting_task {
  status = running;
  idempotency_key = "";
  updated_at = 20;
  started_at = some 20;
}

success_reached : Reached success
unfolding new_task move_to available
success_reached =
    changed
      (changed
        (changed (made "t1" "resize" "" (pos 2) 10 refl)
          (claimed claim_options started_task refl refl))
        (reported (pos 50) 30 refl))
      (ended "42" "" succeeded 40 success refl)

Reached-IsWellFormed_example : IsWellFormed success
Reached-IsWellFormed_example = Reached-IsWellFormed success_reached

abbrev dropped : Task
dropped = record waiting_task { status = canceled; finished_at = some 20; updated_at = 20 }

terminal_refuses_example :
    (is_ok (move_to dropped running 30) ≡ false)
    × (is_ok (schedule_retry dropped 30 40) ≡ false)
    × (is_ok (requeue_for_release dropped 30) ≡ false)
unfolding terminal_statuses
terminal_refuses_example = terminal_refuses dropped running 30 40 refl
