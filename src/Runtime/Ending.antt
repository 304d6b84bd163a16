-- ===== src/Runtime/Ending.antt =====
-- pkg/taskpulseworker/runtime.go: how `execute` ends an attempt. What the `select` saw, and what the
-- contexts and the channel of heartbeat errors hold then, are arguments.
use taskpulse.Prelude.{
  is_some, lookup, String, Bool, true, false, Option, none, some, if◌then◌else◌, pos,
}
use taskpulse.Result.{Error}
use taskpulse.Runtime.{Runtime, ClaimedTask, Failure, ExecutorError, classify}

-- `Result` of an executor.
pub record ExecutorResult : Type 0 where
  pub output : String
  pub result_ref : String

pub data ExecutionOutcome : Type 0 where
  returned : ExecutorResult → ExecutionOutcome
  raised : ExecutorError → ExecutionOutcome

-- The case of the `select` that was taken.
pub data Ended : Type 0 where
  execution_done : ExecutionOutcome → Ended
  parent_done : Ended
  execution_context_done : Ended

-- The parent's context stays canceled: it is so before the attempt's end looks at it, only when `fail`
-- looks again, or not at all.
pub data Shutdown : Type 0 where
  before_end before_fail never : Shutdown

-- `parent.Err() != nil`
abbrev pub parent_canceled : Shutdown → Bool
parent_canceled before_end = true
parent_canceled _ = false

-- `ctx.Err() != nil` in `fail`
abbrev pub canceled_later : Shutdown → Bool
canceled_later never = false
canceled_later _ = true

-- What is found at the end: the parent's context, an error of a heartbeat, and whether the deadline of
-- the execution has passed.
pub record Found : Type 0 where
  pub shutdown : Shutdown
  pub heartbeat_error : Option Error
  pub deadline_exceeded : Bool

-- The call of the server by which the attempt ends, if there is one.
pub data Verdict : Type 0 where
  release_task nothing : Verdict
  complete_task : ExecutorResult → Verdict
  fail_task : Failure → Verdict

abbrev pub retryable_failure : String → String → Failure
retryable_failure code message = record {
  code = code;
  message = message;
  retryable = true;
  retry_after = pos 0;
}

abbrev pub heartbeat_failed : Failure
heartbeat_failed = retryable_failure "heartbeat_failed" "task heartbeat failed"

abbrev pub executor_not_found : Failure
executor_not_found = record {
  code = "executor_not_found";
  message = "no executor registered";
  retryable = false;
  retry_after = pos 0;
}

abbrev pub execution_timeout : String → Failure
execution_timeout message = retryable_failure "execution_timeout" message

-- `fail` says nothing under a canceled context.
abbrev pub fail_unless : Bool → Failure → Verdict
fail_unless canceled f = if canceled then nothing else fail_task f

abbrev after_outcome : Found → ExecutionOutcome → Verdict
after_outcome found (returned result) = complete_task result
after_outcome found (raised e) = fail_unless (canceled_later found.shutdown) (classify (some e))

-- `timeout_message` is the text with the configured timeout.
unfoldable pub end_execution : String → Ended → Found → Verdict
unfolding classify
end_execution timeout_message (execution_done outcome) found =
    if parent_canceled found.shutdown then release_task else elim found.heartbeat_error [
      | some e ↦ fail_unless (canceled_later found.shutdown) heartbeat_failed
      | none ↦ after_outcome found outcome
    ]
end_execution timeout_message parent_done found = release_task
end_execution timeout_message execution_context_done found =
    if parent_canceled found.shutdown then release_task else elim found.heartbeat_error [
      | some e ↦ fail_unless (canceled_later found.shutdown) heartbeat_failed
      | none ↦
          if found.deadline_exceeded
          then fail_unless (canceled_later found.shutdown) (execution_timeout timeout_message)
          else nothing
    ]

-- `execute` as a whole; a task without an executor fails, and nothing is started.
unfoldable pub execute : Runtime → ClaimedTask → String → Ended → Found → Verdict
unfolding end_execution lookup
execute r t timeout_message ended found =
    if is_some (lookup t.workflow r.executors)
    then end_execution timeout_message ended found
    else fail_unless (canceled_later found.shutdown) executor_not_found
