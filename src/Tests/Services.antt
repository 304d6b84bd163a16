-- ===== src/Tests/Services.antt =====
-- The worker protocol of internal/application/worker_task_service.go on one task.
use taskpulse.Prelude.{ℤ, String, ◌≡◌, refl, true, Bool, pos, none, some, lookup, trim_space}
use taskpulse.Result.{Result, ok, err, task_conflict}
use taskpulse.Task.{Task, retrying, schedule_retry}
use taskpulse.Event.{new_task_retrying_event}
use taskpulse.Store.Both.{Stores}
use taskpulse.Application.Codec.{LeaseTokenPayload}
use taskpulse.Application.WorkerTasks.Tokens.{token_payload}
use taskpulse.Application.WorkerTasks.Operations.{
  FailTaskInput, Clock, complete_task, fail_task, fail_fresh, retry_or_fail, after_schedule,
  leased_task, release_task, report_progress, heartbeat_task,
}
use taskpulse.Application.WorkerTasks.Operations.Stale.{IsRefused, IsStale, stale_worker-IsRefused}
use taskpulse.System.RepeatedFailures.{retried_failure_conflicts}
use taskpulse.System.{retry_scheduling}
use taskpulse.Tests.Server.{the_run}
use taskpulse.Worker.RetryScheduler.{external_schedule}
use taskpulse.Worker.Backoff.{delay}
use taskpulse.Tests.Fixtures.{plain_codec, running_task, holding, holding-IsKeyed}

-- The first worker lost the task, which a second one runs under version 3.
abbrev taken_over : Stores
taken_over = holding (record running_task { version = 3; lease_owner = "w2" })

abbrev old_payload : LeaseTokenPayload
old_payload = record { task_id = "t1"; worker_id = "w1"; version = 1 }

old_token : IsStale plain_codec taken_over "t1" "w1" "t1;w1;1;"
unfolding token_payload lookup trim_space
old_token = record {
  payload = old_payload;
  named = refl;
  task = record running_task { version = 3; lease_owner = "w2" };
  stored = refl;
  runs = refl;
  later = refl;
}

abbrev at_40 : Clock
at_40 = record { checked_at = 40; now = 41 }

stale_worker-IsRefused_example :
    ((output result_ref : String)
      → IsRefused taken_over (
          complete_task plain_codec none
            (record {
              task_id = "t1";
              worker_id = "w1";
              lease_token = "t1;w1;1;";
              output = output;
              result_ref = result_ref;
            })
            at_40
            "e2"
            taken_over))
    × ((code message : String) (retryable : Bool) (retry_after : ℤ)
        → IsRefused taken_over (
            fail_task plain_codec none none
              (record {
                task_id = "t1";
                worker_id = "w1";
                lease_token = "t1;w1;1;";
                error_code = code;
                error_message = message;
                retryable = retryable;
                retry_after = retry_after;
              })
              at_40
              "e2"
              taken_over))
    × IsRefused taken_over (
        release_task plain_codec none
          (record { task_id = "t1"; worker_id = "w1"; lease_token = "t1;w1;1;" })
          at_40
          "e2"
          taken_over)
    × ((progress : ℤ) (message : String)
        → IsRefused taken_over (
            report_progress plain_codec none
              (record {
                task_id = "t1";
                worker_id = "w1";
                lease_token = "t1;w1;1;";
                progress = progress;
                message = message;
              })
              at_40
              "e2"
              taken_over))
    × ((lease_duration : ℤ)
        → IsRefused taken_over (
            heartbeat_task plain_codec none
              (record {
                task_id = "t1";
                worker_id = "w1";
                lease_token = "t1;w1;1;";
                lease_duration = lease_duration;
              })
              at_40.now
              taken_over))
stale_worker-IsRefused_example =
    stale_worker-IsRefused plain_codec none none taken_over "t1" "w1" "t1;w1;1;" old_token at_40
      "e2"

abbrev failure : FailTaskInput
failure = record {
  task_id = "t1";
  worker_id = "w1";
  lease_token = "t1;w1;1;";
  error_code = "timeout";
  error_message = "no answer";
  retryable = true;
  retry_after = pos 0;
}

-- The first request, with what the scheduler draws.
abbrev first_try : Result Task × Stores
first_try =
    fail_task plain_codec none (some (retry_scheduling plain_codec (λ n. 0) none 42 "e9")) failure
      at_40 "e3" (holding running_task)

abbrev task_of : Result Task → Task
task_of (ok t) = t
task_of (err e) = running_task

first_retried : first_try ≡ (ok (task_of first_try.0), first_try.1)
unfolding the_run fail_task fail_fresh retry_or_fail external_schedule delay after_schedule
    schedule_retry new_task_retrying_event
first_retried = refl

first_waits : (task_of first_try.0).status ≡ retrying
unfolding the_run fail_task fail_fresh retry_or_fail external_schedule delay after_schedule
    schedule_retry new_task_retrying_event
first_waits = refl

held_at_40 :
    leased_task plain_codec none "t1" "w1" "t1;w1;1;" 40 (holding running_task)
    ≡ (ok running_task, holding running_task)
unfolding the_run
held_at_40 = refl

retried_failure_conflicts_example :
    fail_task plain_codec none none failure at_40 "e4" first_try.1
    ≡ (err task_conflict, first_try.1)
retried_failure_conflicts_example =
    retried_failure_conflicts plain_codec (λ n. 0) failure at_40 at_40 "e3" "e4" "e9" 42 none
      (holding running_task) first_try.1 running_task (task_of first_try.0)
      (holding-IsKeyed running_task refl) held_at_40 first_retried first_waits
