-- ===== src/Tests/Details.antt =====
-- The details of a task whose first try failed.
use taskpulse.Prelude.{◌≡◌, refl, none, some, [], ◌∷◌, ◌≤◌, arith, lookup, ◌+◌}
use taskpulse.Result.{ok}
use taskpulse.Task.{Task, succeeded}
use taskpulse.Event.{TaskEvent, task_retrying}
use taskpulse.Store.Both.{Stores}
use taskpulse.Store.Events.{earlier, events_of}
use taskpulse.Store.Sorting.{sort}
use taskpulse.Application.TaskDetail.{
  DetailCodec, TaskDetailResult, new_task_detail_result, get_task_detail,
}
use taskpulse.Application.TaskDetail.Facts.{IsDetail, get_task_detail-IsDetail, durations_add_up}
use taskpulse.Tests.Fixtures.{running_task, creation_event, holding}

-- A payload is an error code and no worker.
abbrev code_codec : DetailCodec
code_codec = record {
  unmarshal_failure = λ s. some (record { error_code = s; retryable = none });
  unmarshal_worker = λ s. none;
}

abbrev retry_event : TaskEvent
retry_event = record creation_event { id = "e2"; type = task_retrying; payload = "timeout" }

abbrev tried : Stores
tried = record (holding running_task) {
  event_store = record {
    events_by_id = ("e1", creation_event) ∷ ("e2", retry_event) ∷ [];
    events_by_task_id = ("t1", creation_event ∷ retry_event ∷ []) ∷ [];
  };
}

found : lookup "t1" tried.task_store.tasks ≡ some running_task
unfolding lookup
found = refl

get_task_detail-IsDetail_example :
    (d : TaskDetailResult) × (get_task_detail code_codec none "t1" 60 tried ≡ (ok d, tried))
    × IsDetail code_codec running_task (sort earlier (events_of "t1" tried.event_store)) d
get_task_detail-IsDetail_example =
    get_task_detail-IsDetail code_codec "t1" 60 tried running_task refl found

abbrev ended_task : Task
ended_task = record running_task {
  status = succeeded;
  started_at = some 1500010;
  finished_at = some 4000010;
}

durations_add_up_example :
    let d = new_task_detail_result code_codec ended_task (creation_event ∷ []) 60 in
    (d.queue_duration_ms + d.execution_duration_ms ≤ d.total_duration_ms)
    × (d.total_duration_ms ≤ d.queue_duration_ms + d.execution_duration_ms + 1)
durations_add_up_example =
    durations_add_up code_codec ended_task (creation_event ∷ []) 60 (omega arith) (omega arith)
      (omega arith)
