-- ===== src/Worker/RetryScheduler.antt =====
-- internal/worker/retry_scheduler.go, and the policy choice of `externalRetryScheduler` in
-- cmd/taskpulse/main.go. `Schedule` changes the caller's task; the changed task is the result. Where
-- it fails after the change, no caller reads the task again.
use taskpulse.Prelude.{
  ℕ, ◌+◌, String, not, ◌||◌, Option, some, ℤ, pos, magnitude, ltb, ◌==◌, text_eq, if◌then◌else◌,
}
use taskpulse.Result.{
  Context, Exec, return, lift, require, ◌>>=◌, ◌>>◌, fail_if, check, nil_task, nil_execution_error,
  execution_not_retryable, invalid_retry_now, retry_budget_exhausted,
}
use taskpulse.Task.{Task, schedule_retry}
use taskpulse.Event.{Json, new_task_retrying_event}
use taskpulse.Store.Both.{Stores}
use taskpulse.Store.Transition.{update_task_with_event}
use taskpulse.Worker.Backoff.{RetryPolicy, delay}
use taskpulse.Worker.Backoff
use taskpulse.Worker.ExecutionError.{ExecutionError, transient, retryable, new_execution_error}
use taskpulse.Worker.ExecutionError

-- The task keeps the code of the error alone.
abbrev pub noted : Task → ExecutionError → Task
noted t e = record t { error_message = e.code }

-- What `Schedule` does after its checks.
unfoldable pub reschedule :
    Json → (ℕ → ℕ) → Context → Task → ExecutionError → RetryPolicy → ℕ → String → Exec Stores Task
reschedule json int63n ctx t e policy now event_id = do
  d ← lift (delay int63n policy (t.retry_count + 1) e.retry_after)
  retried ← lift (schedule_retry t now (now + d))
  event ← lift (new_task_retrying_event json event_id (some (noted retried e)) e.code (pos d) now)
  update_task_with_event ctx (some (noted retried e)) (some event)
  return (noted retried e)

unfoldable pub schedule :
    Json
    → (ℕ → ℕ)
    → Context
    → Option Task
    → Option ExecutionError
    → RetryPolicy
    → ℕ
    → String
    → Exec Stores Task
unfolding ExecutionError.validate retryable Backoff.validate reschedule
schedule json int63n ctx task execution_error policy now event_id = do
  check ctx
  t ← require task nil_task
  e ← require execution_error nil_execution_error
  lift (ExecutionError.validate (some e))
  fail_if (not (retryable (some e))) execution_not_retryable
  fail_if (now == 0) invalid_retry_now
  lift (Backoff.validate policy)
  fail_if
      (ltb t.max_retries (t.retry_count + 1)
        || ltb (magnitude policy.max_retries) (t.retry_count + 1))
      retry_budget_exhausted
  reschedule json int63n ctx t e policy now event_id

-- One second and thirty, in nanoseconds.
abbrev pub policy_for : Task → RetryPolicy
policy_for t = record {
  max_retries = if text_eq t.workflow "llm_analysis" then pos 3 else pos t.max_retries;
  base_delay = pos 1_000_000_000;
  max_delay = pos 30_000_000_000;
}

unfoldable pub external_schedule :
    Json → (ℕ → ℕ) → Context → Task → String → String → ℤ → ℕ → String → Exec Stores Task
unfolding schedule new_execution_error
external_schedule json int63n ctx t code message retry_after now event_id = do
  e ← lift (new_execution_error transient code retry_after (some message))
  schedule json int63n ctx (some t) (some e) (policy_for t) now event_id
