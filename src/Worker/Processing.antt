-- ===== src/Worker/Processing.antt =====
-- internal/worker/worker.go: the worker inside the server. What happens while the executor runs, the
-- heartbeats and the operations of others, is an argument, since the executor is any code. The log
-- and the metrics are not modelled.
pub mod Finish
use taskpulse.Prelude.{
  ℕ, ◌/◌, String, Bool, true, false, not, ◌&&◌, ◌||◌, Option, none, some, List, [], ◌∷◌, ℤ, pos,
  is_nonpos, is_empty, is_some, if◌then◌else◌, Assoc, lookup, text_append,
}
use taskpulse.Result.{
  Error, Result, ok, err, Context, Exec, return, fail, lift, ◌>>=◌, ◌>>◌, no_task_available,
  lease_lost, retry_budget_exhausted, invalid_retry_count, invalid_lease_duration,
}
use taskpulse.Task.{Task, TaskStatus, succeeded, partial, failed, move_to}
use taskpulse.Event.{
  Json, TaskEvent, EventType, task_succeeded, task_partially_succeeded, task_failed, new_task_event,
}
use taskpulse.Store.Both.{Stores, on_tasks}
use taskpulse.Store.Tasks.{ClaimOptions, renew_lease}
use taskpulse.Store.Transition.{claim_next_with_event, update_task_with_event}
use taskpulse.Worker.Backoff.{RetryPolicy}
use taskpulse.Worker.ExecutionError.{ExecutionError, retryable}
use taskpulse.Worker.RetryScheduler.{schedule}

-- `other` is any other text.
pub data ExecutionOutcome : Type 0 where
  outcome_succeeded outcome_partial outcome_failed : ExecutionOutcome
  outcome_other : String → ExecutionOutcome

pub record ExecutionResult : Type 0 where
  pub output : String
  pub outcome : ExecutionOutcome
  pub error_message : String

-- The error of an execution: a store error of the heartbeats, an `ExecutionError`, or another one,
-- by its text.
pub data ExecuteError : Type 0 where
  heartbeat_failed : Error → String → ExecuteError
  reported : ExecutionError → ExecuteError
  other_error : String → ExecuteError

pub data Executed : Type 0 where
  executed : ExecutionResult → Executed
  not_executed : ExecuteError → Executed

-- What `ProcessNext` reads besides the stores: `known` are the workflows that have an executor.
pub record Worker : Type 0 where
  pub id : String
  pub known : Assoc (Unit {0})
  pub retry_policies : Assoc RetryPolicy
  pub lease_duration : ℤ

unfoldable pub set_lease_duration : Worker → ℤ → Result Worker
set_lease_duration w d =
    if is_nonpos d then err invalid_lease_duration else ok (record w { lease_duration = d })

-- One tick of the ticker: its time, and the state of the context at the renewal and after it.
pub record Tick : Type 0 where
  pub now : ℕ
  pub context : Context
  pub context_after : Context

-- An error of a renewal ends the heartbeats; it is none of theirs if the context was done.
abbrev pub after_renewal :
    Bool → Result (Unit {0}) → Exec Stores (Option Error) → Exec Stores (Option Error)
after_renewal done (ok u) rest s = rest s
after_renewal done (err e) rest s = if done then (ok none, s) else (ok (some e), s)

-- `maintainLease` up to the moment when the context is done, which is after the last tick. The
-- result is what it sends to the channel.
unfoldable pub maintain_lease : Worker → Task → List Tick → Exec Stores (Option Error)
unfolding renew_lease
maintain_lease w t [] s = (ok none, s)
maintain_lease w t (tick ∷ ticks) s =
    let (r, s') =
      on_tasks
        (renew_lease tick.context (record {
          task_id = t.id;
          worker_id = w.id;
          now = tick.now;
          lease_duration = w.lease_duration;
        }))
        s in
    after_renewal (is_some tick.context_after) r (maintain_lease w t ticks) s'

-- `executeWithHeartbeat`: an error of the heartbeats goes before what the executor returned.
abbrev pub with_heartbeat : Option Error → String → Executed → Executed
with_heartbeat none text r = r
with_heartbeat (some e) text r = not_executed (heartbeat_failed e text)

-- The clock and the new id of the last step, and `%q` of fmt.
pub record Finishing : Type 0 where
  pub quoted : String → String
  pub now : ℕ
  pub event_id : String

module _ (ctx : Context) (f : Finishing) where
  -- `newEvent` and what follows it.
  unfoldable pub record_finish : Task → EventType → String → Exec Stores (Unit {0})
  unfolding new_task_event update_task_with_event
  record_finish t type message = do
    e ← lift (new_task_event f.event_id t.id type message "{}" t.progress f.now)
    update_task_with_event ctx (some t) (some e)

  unfoldable pub finish_failed : Task → String → Exec Stores (Unit {0})
  unfolding record_finish move_to
  finish_failed t cause = do
    moved ← lift (move_to (record t { error_message = cause }) failed f.now)
    record_finish moved task_failed "task failed"

  -- The end of `finishWithResult`, with the status and the event that the outcome chose.
  unfoldable pub finish_as : Task → TaskStatus → EventType → String → Exec Stores (Unit {0})
  unfolding record_finish move_to
  finish_as t status type message = do
    moved ← lift (move_to t status f.now)
    record_finish moved type message

  abbrev pub with_result : Task → ExecutionResult → Task
  with_result t r = record t { result = r.output; progress = 100; error_message = r.error_message }

  -- A failure without a message gets one.
  abbrev pub with_message : Task → Task
  with_message t =
      if is_empty t.error_message
      then record t { error_message = "executor reported failure" }
      else t

  unfoldable pub finish_by_outcome : Task → ExecutionOutcome → Exec Stores (Unit {0})
  unfolding finish_as finish_failed
  finish_by_outcome t outcome_succeeded = finish_as t succeeded task_succeeded "task succeeded"
  finish_by_outcome t outcome_partial =
      finish_as t partial task_partially_succeeded "task partially succeeded"
  finish_by_outcome t outcome_failed = finish_as (with_message t) failed task_failed "task failed"
  finish_by_outcome t (outcome_other name) =
      finish_failed t (text_append "invalid execution outcome " (f.quoted name))

  unfoldable pub finish_with_result : Task → ExecutionResult → Exec Stores (Unit {0})
  unfolding finish_by_outcome
  finish_with_result t r = finish_by_outcome (with_result t r) r.outcome

-- The errors of a schedule after which the task fails for good.
abbrev pub gives_up : Error → Bool
gives_up retry_budget_exhausted = true
gives_up invalid_retry_count = true
gives_up _ = false

abbrev is_unavailable : Error → Bool
is_unavailable no_task_available = true
is_unavailable _ = false

abbrev pub worker_options : Worker → ℕ → ClaimOptions
worker_options w now = record {
  worker_id = w.id;
  workflow = "";
  now = now;
  lease_duration = w.lease_duration;
}

abbrev pub offered : Result Task → Result (Option Task)
offered (ok t) = ok (some t)
offered (err e) = if is_unavailable e then ok none else err e

abbrev is_processed : Result (Unit {0}) → Result Bool
is_processed (ok u) = ok true
is_processed (err e) = err e

abbrev pub is_lease_lost : Error → Bool
is_lease_lost lease_lost = true
is_lease_lost _ = false

module _ (json : Json) (int63n : ℕ → ℕ) (w : Worker) (ctx : Context) (f : Finishing) where
  -- What follows a schedule for the task, with the code of its error.
  abbrev pub after_scheduling : Task → String → Result Task × Stores → Result (Unit {0}) × Stores
  after_scheduling t code (ok u, s) = (ok tt, s)
  after_scheduling t code (err x, s) =
      if gives_up x then finish_failed ctx f t code s else (err x, s)

  unfoldable pub retry_by_policy :
      Task → ExecutionError → ℕ → String → Option RetryPolicy → Exec Stores (Unit {0})
  unfolding finish_failed schedule
  retry_by_policy t e retry_at retry_id none s = finish_failed ctx f t e.code s
  retry_by_policy t e retry_at retry_id (some policy) s =
      after_scheduling t e.code
        (schedule json int63n ctx (some t) (some e) policy retry_at retry_id s)

  -- What `ProcessNext` does with what the execution of the task gave.
  unfoldable pub finish : Task → ℕ → String → Executed → Exec Stores (Unit {0})
  unfolding retry_by_policy finish_failed finish_with_result retryable
  finish t retry_at retry_id (executed r) s = finish_with_result ctx f t r s
  finish t retry_at retry_id (not_executed (heartbeat_failed x text)) s =
      if is_lease_lost x then (err lease_lost, s) else finish_failed ctx f t text s
  finish t retry_at retry_id (not_executed (reported e)) s =
      if retryable (some e)
      then retry_by_policy t e retry_at retry_id (lookup t.workflow w.retry_policies) s
      else finish_failed ctx f t e.code s
  finish t retry_at retry_id (not_executed (other_error text)) s = finish_failed ctx f t text s

  -- The claim at the start of `ProcessNext`; nothing is there to be claimed where it is `none`.
  unfoldable pub claim_for_worker : ℕ → String → Exec Stores (Option Task)
  unfolding claim_next_with_event
  claim_for_worker now event_id s =
      let (r, s') = claim_next_with_event json ctx (worker_options w now) event_id s in
      (offered r, s')

  -- The end of a claimed task is an error, or the answer that a task was processed.
  abbrev pub processed : Exec Stores (Unit {0}) → Exec Stores Bool
  processed m s = let (r, s') = m s in (is_processed r, s')

  -- `execution` is what `executeWithHeartbeat` gives, and what happens to the stores meanwhile.
  unfoldable pub process_claimed :
      Option Task → (Task → Stores → Executed × Stores) → ℕ → String → Exec Stores Bool
  unfolding finish finish_failed
  process_claimed none execution retry_at retry_id s = (ok false, s)
  process_claimed (some t) execution retry_at retry_id s =
      if is_some (lookup t.workflow w.known)
      then (let (r, s') = execution t s in processed (finish t retry_at retry_id r) s')
      else processed
          (finish_failed ctx f t
            (text_append "no executor registered for workflow " (f.quoted t.workflow)))
          s

  -- With an error the code also says whether a task was claimed, which nobody reads.
  unfoldable pub process_next :
      ℕ → String → (Task → Stores → Executed × Stores) → ℕ → String → Exec Stores Bool
  unfolding claim_for_worker process_claimed
  process_next now event_id execution retry_at retry_id = do
    t ← claim_for_worker now event_id
    process_claimed t execution retry_at retry_id
