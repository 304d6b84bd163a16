-- ===== src/Tests/Sessions.antt =====
-- A heartbeat and a progress report that are under way together, and the ends of an attempt.
use taskpulse.Prelude.{◌≡◌, refl, false, none, [], ◌∷◌, pos}
use taskpulse.Result.{Result, ok, err}
use taskpulse.Task.{Task}
use taskpulse.Store.Both.{Stores}
use taskpulse.Application.WorkerTasks.Operations.{
  ReportProgressInput, Clock, report_progress, progress_event,
}
use taskpulse.Application.WorkerTasks.Operations.Stale.{IsStale}
use taskpulse.Runtime.{Runtime, ClaimedTask}
use taskpulse.Runtime.Session.{
  Session, beat_sent, report_sent, answered, moves, report_served, report_returned, beat_served,
  beat_returned,
}
use taskpulse.Runtime.Overtaking.{IsCutShort, overtaken-IsCutShort, set_back-IsStale}
use taskpulse.Runtime.Ending.{
  ExecutorResult, Found, never, execution_done, returned, complete_task, fail_task,
  executor_not_found, execute,
}
use taskpulse.Tests.Fixtures.{plain_codec, running_task, holding, holding-IsKeyed}
use taskpulse.Tests.Server.{the_run}

abbrev worker_runtime : Runtime
worker_runtime = record {
  worker_id = "w1";
  workflow = "resize";
  lease_duration = 30;
  poll_interval = 1;
  claim_retry_max_interval = 5;
  heartbeat_interval = 10;
  execution_timeout = 0;
  shutdown_timeout = 5;
  executors = [];
}

abbrev at_40 : Clock
at_40 = record { checked_at = 40; now = 41 }

abbrev half_way : ReportProgressInput
half_way = record {
  task_id = "t1";
  worker_id = "w1";
  lease_token = "t1;w1;1;";
  progress = pos 50;
  message = "half way";
}

abbrev accepted_report : Result Task × Stores
accepted_report = report_progress plain_codec none half_way at_40 "e2" (holding running_task)

abbrev task_of : Result Task → Task
task_of (ok t) = t
task_of (err e) = running_task

report_accepted : accepted_report ≡ (ok (task_of accepted_report.0), accepted_report.1)
unfolding the_run report_progress progress_event
report_accepted = refl

abbrev under_way : Session
under_way = record {
  lease = record { token = "t1;w1;1;"; version = 1 };
  heartbeat = beat_sent "t1;w1;1;" 1;
  report = report_sent "t1;w1;1;" (pos 50) "half way";
  canceled = false;
  heartbeat_errors = none;
  stores = holding running_task;
}

overtaken-IsCutShort_example :
    IsCutShort
      (moves plain_codec worker_runtime "t1"
        (report_served none at_40 "e2" ∷ report_returned ∷ beat_served none 42 ∷ beat_returned ∷ [])
        under_way)
      accepted_report.1
      (task_of accepted_report.0).lease_token
overtaken-IsCutShort_example =
    overtaken-IsCutShort plain_codec worker_runtime "t1" under_way "t1;w1;1;" 1 (pos 50) "half way"
      none at_40 "e2" none 42 (task_of accepted_report.0) accepted_report.1
      (holding-IsKeyed running_task refl) refl refl refl report_accepted

abbrev beaten_task : Task
beaten_task = record running_task { lease_token = "t1;w1;1;" }

abbrev answer_pending : Session
answer_pending = record under_way { heartbeat = answered 1 (ok beaten_task) }

abbrev set_back : Session
set_back =
    moves plain_codec worker_runtime "t1"
      (report_served none at_40 "e2" ∷ report_returned ∷ beat_returned ∷ []) answer_pending

set_back-IsStale_example : IsStale plain_codec set_back.stores "t1" "w1" set_back.lease.token
set_back-IsStale_example =
    set_back-IsStale plain_codec worker_runtime "t1" answer_pending "t1;w1;1;" 1 beaten_task
      (pos 50) "half way" none at_40 "e2" (task_of accepted_report.0) accepted_report.1
      (holding-IsKeyed running_task refl) refl refl refl report_accepted

abbrev calm : Found
calm = record { shutdown = never; heartbeat_error = none; deadline_exceeded = false }

abbrev ready_runtime : Runtime
ready_runtime = record worker_runtime { executors = ("resize", tt) ∷ [] }

abbrev taken : ClaimedTask
taken = record { id = "t1"; workflow = "resize"; status = "running"; lease_token = "t1;w1;1;" }

abbrev forty_two : ExecutorResult
forty_two = record { output = "42"; result_ref = "" }

completes :
    execute ready_runtime taken "" (execution_done (returned forty_two)) calm
    ≡ complete_task forty_two
unfolding execute
completes = refl

without_executor :
    execute worker_runtime taken "" (execution_done (returned forty_two)) calm
    ≡ fail_task executor_not_found
unfolding execute
without_executor = refl
