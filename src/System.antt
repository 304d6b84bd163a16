-- ===== src/System.antt =====
-- The stores under the operations of the server, one after another: those of
-- internal/application/task_service.go and worker_task_service.go, and internal/worker/reaper.go.
-- Every method of the stores holds their locks, so a run of the server is a sequence of steps on
-- the stores; an operation that calls several methods is one step here.
pub mod Invariant
pub mod History
pub mod Runs
pub mod Fencing
pub mod Working
pub mod Processing
pub mod Reaping
pub mod RepeatedFailures
pub mod TaskHistories
use taskpulse.Prelude.{ℕ, String, Option, none, some, ◌≡◌}
use taskpulse.Result.{Context}
use taskpulse.Event.{Json}
use taskpulse.Store.Tasks.{new_memory_task_store}
use taskpulse.Store.Events.{new_memory_event_store}
use taskpulse.Store.Both.{Stores}
use taskpulse.Application.Codec.{Codec}
use taskpulse.Application.TaskService.{CreateTaskInput, Fresh, create_task, cancel_task}
use taskpulse.Application.WorkerTasks.Operations.{
  ClaimTaskInput, HeartbeatTaskInput, CompleteTaskInput, ReportProgressInput, FailTaskInput,
  ReleaseTaskInput, Clock, RetryScheduling, claim_task, heartbeat_task, complete_task,
  report_progress, fail_task, release_task,
}
use taskpulse.Worker.RetryScheduler.{external_schedule}
use taskpulse.Worker.Reaper.{process_next}

-- The scheduler of the server, with the time and the event id that it draws.
abbrev pub retry_scheduling : Codec → (ℕ → ℕ) → Context → ℕ → String → RetryScheduling
retry_scheduling codec int63n ctx now event_id t code message retry_after =
    external_schedule codec.json int63n ctx t code message retry_after now event_id

-- One operation, with any request, clock, new ids, random numbers and state of the context.
pub data Operation : Type 0 where
  create : CreateTaskInput → Fresh → Operation
  claim : ClaimTaskInput → ℕ → String → Operation
  heartbeat : HeartbeatTaskInput → ℕ → Operation
  complete : CompleteTaskInput → Clock → String → Operation
  progress : ReportProgressInput → Clock → String → Operation
  fail : (ℕ → ℕ) → FailTaskInput → Clock → String → ℕ → String → Operation
  release : ReleaseTaskInput → Clock → String → Operation
  cancel : String → String → ℕ → Operation
  reap : ℕ → String → Operation

unfoldable pub perform : Codec → Context → Operation → Stores → Stores
unfolding process_next
perform codec ctx (create i fresh) s = (create_task codec.json ctx i fresh s).1
perform codec ctx (claim i now event_id) s = (claim_task codec ctx i now event_id s).1
perform codec ctx (heartbeat i now) s = (heartbeat_task codec ctx i now s).1
perform codec ctx (complete i clock event_id) s = (complete_task codec ctx i clock event_id s).1
perform codec ctx (progress i clock event_id) s = (report_progress codec ctx i clock event_id s).1
perform codec ctx (fail int63n i clock event_id at retry_id) s =
    (fail_task codec ctx (some (retry_scheduling codec int63n ctx at retry_id)) i clock event_id
      s).1
perform codec ctx (release i clock event_id) s = (release_task codec ctx i clock event_id s).1
perform codec ctx (cancel id event_id now) s = (cancel_task ctx id event_id now s).1
perform codec ctx (reap now event_id) s = (process_next ctx now event_id s).1

abbrev pub empty_stores : Stores
empty_stores = record { task_store = new_memory_task_store; event_store = new_memory_event_store }

-- What operations lead to from `s`, each in its own context.
pub data Run (codec : Codec) (s : Stores) : Stores → Type 0 where
  start : Run codec s s
  next :
      {s' : Stores}
      → Run codec s s'
      → (ctx : Context) (o : Operation) → Run codec s (perform codec ctx o s')
