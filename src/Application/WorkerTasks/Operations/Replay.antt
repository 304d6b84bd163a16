-- ===== src/Application/WorkerTasks/Operations/Replay.antt =====
-- Repeated and late requests of internal/application/worker_task_service.go.
use text.Mathlib.TextLemmas.{length-append}
use taskpulse.Prelude.{
  text_append_longer, String, ◌≡◌, refl, false, Option, none, some, arith, text_eq, text_append,
  lookup, [], ◌∷◌, List, if◌then◌else◌,
}
use taskpulse.Result.{ok, err, task_conflict}
use taskpulse.Task.{Task, TaskStatus, failed, retrying}
use taskpulse.Store.Both.{Stores}
use taskpulse.Store.Tasks.{get, next_version}
use taskpulse.Application.Codec.{Codec, LeaseTokenPayload}
use taskpulse.Application.WorkerTasks.Tokens.{has_status, token_payload, replay_worker_operation}
use taskpulse.Application.WorkerTasks.Operations.{RetryScheduling, FailTaskInput, Clock, fail_task}

-- The message of a failure is longer than its code.
code-failure_message :
    (code rest : String) → text_eq code (text_append code (text_append ": " rest)) ≡ false
code-failure_message code rest =
    text_append_longer code (text_append ": " rest) (omega (arith, length-append ": " rest))

module _ (codec : Codec) (s : Stores) (id worker token : String) (p : LeaseTokenPayload)
    (t : Task) where
  replayed_as :
      (statuses : List TaskStatus)
      → token_payload codec id worker token ≡ ok p
      → lookup id s.task_store.tasks ≡ some t
      → t.version ≡ next_version p.version
      → replay_worker_operation codec none id worker token statuses s
        ≡ (ok (if has_status t.status statuses then some t else none), s)
  unfolding replay_worker_operation get
  replayed_as statuses named found next = ground arith

-- A `FailTask` request for a task that backs off with the request's error code as its message is
-- refused, since the request is compared with the code and the message.
pub noted_failure_conflicts :
    (codec : Codec) (scheduler : Option RetryScheduling) (i : FailTaskInput) (clock : Clock)
    (event_id : String) (s : Stores) (p : LeaseTokenPayload) (t : Task)
    → token_payload codec i.task_id i.worker_id i.lease_token ≡ ok p
    → lookup i.task_id s.task_store.tasks ≡ some t
    → t.status ≡ retrying
    → t.version ≡ next_version p.version
    → t.error_message ≡ i.error_code
    → fail_task codec none scheduler i clock event_id s ≡ (err task_conflict, s)
unfolding fail_task
noted_failure_conflicts codec scheduler i clock event_id s p t named found waits next noted =
    rw
      (replayed_as codec s i.task_id i.worker_id i.lease_token p t (retrying ∷ failed ∷ []) named
        found next)
      (rw waits (rw noted (rw (code-failure_message i.error_code i.error_message) refl)))
