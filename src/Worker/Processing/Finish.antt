-- ===== src/Worker/Processing/Finish.antt =====
-- What the end of `ProcessNext` in internal/worker/worker.go does to the stores.
use taskpulse.Prelude.{
  false, ℕ, ◌≤◌, String, true, Option, none, some, ◌≡◌, refl, sym, inl, inr, arith, lookup,
  is_empty, Bool-cases,
}
use taskpulse.Result.{ok, Context, Result-cases, Exec-cases}
use taskpulse.Task.{
  Task, TaskStatus, is_running, succeeded, partial, failed, canceled, queued, running, retrying,
  move_to, terminal_statuses,
}
use taskpulse.Task.Legal.{IsLegal}
use taskpulse.Task.WellFormed.{IsWellFormed}
use taskpulse.Event.{
  Json, EventType, new_task_event, task_succeeded, task_partially_succeeded, task_failed,
}
use taskpulse.Store.Both.{Stores}
use taskpulse.Store.Effect.{LastStep, kept}
use taskpulse.Store.Transition.Atomic.{IsWritable}
use taskpulse.Application.WorkerTasks.Scheduled.{schedule-LastStep, schedule_refused}
use taskpulse.Worker.Backoff.{RetryPolicy}
use taskpulse.Worker.ExecutionError.{ExecutionError, retryable}
use taskpulse.Worker.RetryScheduler.{schedule}
use taskpulse.Worker.Processing.{
  ExecutionOutcome, ExecutionResult, outcome_succeeded, outcome_partial, outcome_failed,
  outcome_other, heartbeat_failed, reported, other_error, Executed, executed, not_executed, Worker,
  Finishing, record_finish, finish_failed, finish_as, finish_by_outcome, finish_with_result,
  gives_up, is_lease_lost, retry_by_policy, finish,
}

-- The task with what the execution left in it.
abbrev marked : Task → String → ℕ → String → Task
marked t result progress message = record t {
  result = result;
  progress = progress;
  error_message = message;
}

abbrev ended : Task → TaskStatus → ℕ → Task
ended t status now = record t {
  status = status;
  updated_at = now;
  finished_at = some now;
  lease_owner = "";
  lease_expires_at = none;
}

move_to-ended :
    (t : Task) (status : TaskStatus) (now : ℕ)
    → is_running t.status ≡ true
    → terminal_statuses status ≡ true
    → move_to t status now ≡ ok (ended t status now)
unfolding move_to terminal_statuses
move_to-ended t succeeded now r final = ground arith
move_to-ended t partial now r final = ground arith
move_to-ended t failed now r final = ground arith
move_to-ended t canceled now r final = ground arith
move_to-ended t queued now r final = cc
move_to-ended t running now r final = cc
move_to-ended t retrying now r final = cc

ended_IsLegal :
    (p : Task) (result message : String) (progress : ℕ) (status : TaskStatus) (now : ℕ)
    → is_running p.status ≡ true
    → terminal_statuses status ≡ true
    → (IsWellFormed p → progress ≤ 100)
    → IsLegal p (ended (marked p result progress message) status now)
unfolding terminal_statuses
ended_IsLegal p result message progress status now r final bounded = record {
  live = ground arith;
  same_id = refl;
  same_version = refl;
  same_key = refl;
  same_workflow = refl;
  same_input = refl;
  same_budget = refl;
  same_creation = refl;
  sound = λ w. record {
    unowned = λ h. refl;
    unleased = λ h. refl;
    ended = sym final;
    begun = λ h. w.begun r;
    budgeted = w.budgeted;
    progressed = bounded w;
  };
}

final_rests : (status : TaskStatus) → terminal_statuses status ≡ true → is_running status ≡ false
unfolding terminal_statuses
final_rests status e = ground arith

module _ (ctx : Context) (f : Finishing) (p : Task) (s : Stores) (writable : IsWritable ctx p s)
    (running : is_running p.status ≡ true) where
  record_finish-LastStep :
      (t : Task) (type : EventType) (message : String)
      → is_running t.status ≡ false
      → IsLegal p t
      → LastStep p.id s (record_finish ctx f t type message s).1
  unfolding record_finish
  record_finish-LastStep t type message rests legal =
      elim (Result-cases (new_task_event f.event_id t.id type message "{}" t.progress f.now)) [
        | inl (e, m) ↦ rw m (writable t e rests legal)
        | inr (x, m) ↦ rw m (kept refl)
      ]

  finish_failed-LastStep :
      (result message cause : String) (progress : ℕ)
      → (IsWellFormed p → progress ≤ 100)
      → LastStep p.id s (finish_failed ctx f (marked p result progress message) cause s).1
  unfolding finish_failed terminal_statuses
  finish_failed-LastStep result message cause progress bounded =
      rw (move_to-ended (marked p result progress cause) failed f.now running refl) (
        record_finish-LastStep _ task_failed "task failed" refl
          (ended_IsLegal p result cause progress failed f.now running refl bounded))

  -- The task as it was claimed fails.
  pub plain_failure-LastStep : (cause : String) → LastStep p.id s (finish_failed ctx f p cause s).1
  plain_failure-LastStep cause =
      finish_failed-LastStep p.result p.error_message cause p.progress (λ w. w.progressed)

  finish_as-LastStep :
      (result message text : String) (progress : ℕ) (status : TaskStatus) (type : EventType)
      → terminal_statuses status ≡ true
      → progress ≤ 100
      → LastStep p.id s (finish_as ctx f (marked p result progress message) status type text s).1
  unfolding finish_as
  finish_as-LastStep result message text progress status type final bounded =
      rw (move_to-ended (marked p result progress message) status f.now running final) (
        record_finish-LastStep _ type text (final_rests status final)
          (ended_IsLegal p result message progress status f.now running final (λ w. bounded)))

  finish_by_outcome-LastStep :
      (result message : String) (outcome : ExecutionOutcome)
      → LastStep p.id s (finish_by_outcome ctx f (marked p result 100 message) outcome s).1
  unfolding finish_by_outcome terminal_statuses
  finish_by_outcome-LastStep result message outcome_succeeded =
      finish_as-LastStep result message _ 100 succeeded task_succeeded refl (omega arith)
  finish_by_outcome-LastStep result message outcome_partial =
      finish_as-LastStep result message _ 100 partial task_partially_succeeded refl (omega arith)
  finish_by_outcome-LastStep result message outcome_failed = elim (Bool-cases (is_empty message)) [
    | inl e ↦ rw e (
        finish_as-LastStep result "executor reported failure" _ 100 failed task_failed refl
          (omega arith))
    | inr e ↦ rw e (finish_as-LastStep result message _ 100 failed task_failed refl (omega arith))
  ]
  finish_by_outcome-LastStep result message (outcome_other name) =
      finish_failed-LastStep result message _ 100 (λ w. omega arith)

  finish_with_result-LastStep :
      (r : ExecutionResult) → LastStep p.id s (finish_with_result ctx f p r s).1
  unfolding finish_with_result
  finish_with_result-LastStep r = finish_by_outcome-LastStep r.output r.error_message r.outcome

  module _ (json : Json) (int63n : ℕ → ℕ) (w : Worker) where
    retry_by_policy-LastStep :
        (e : ExecutionError) (retry_at : ℕ) (retry_id : String) (policy : Option RetryPolicy)
        → LastStep p.id s (retry_by_policy json int63n w ctx f p e retry_at retry_id policy s).1
    unfolding retry_by_policy
    retry_by_policy-LastStep e retry_at retry_id none = plain_failure-LastStep e.code
    retry_by_policy-LastStep e retry_at retry_id (some policy) =
        elim (Exec-cases (schedule json int63n ctx (some p) (some e) policy retry_at retry_id s)) [
          | inl (u, s', h) ↦
              let made =
                schedule-LastStep json int63n ctx p e policy retry_at retry_id s writable running in
              rw h (rw h at made)
          | inr (x, s', h) ↦
              let unchanged =
                schedule_refused json int63n ctx p e policy retry_at retry_id s s' x h in
              rw (h, unchanged)
                (elim (Bool-cases (gives_up x)) [
                  | inl g ↦ rw g (plain_failure-LastStep e.code)
                  | inr g ↦ rw g (kept refl)
                ])
        ]

    -- Whatever the execution gave, its end has one effect or none.
    pub finish-LastStep :
        (retry_at : ℕ) (retry_id : String) (r : Executed)
        → LastStep p.id s (finish json int63n w ctx f p retry_at retry_id r s).1
    unfolding finish
    finish-LastStep retry_at retry_id (executed r) = finish_with_result-LastStep r
    finish-LastStep retry_at retry_id (not_executed (heartbeat_failed x text)) =
        elim (Bool-cases (is_lease_lost x)) [
          | inl e ↦ rw e (kept refl)
          | inr e ↦ rw e (plain_failure-LastStep text)
        ]
    finish-LastStep retry_at retry_id (not_executed (reported e)) =
        elim (Bool-cases (retryable (some e))) [
          | inl g ↦
              rw g
                (retry_by_policy-LastStep e retry_at retry_id (lookup p.workflow w.retry_policies))
          | inr g ↦ rw g (plain_failure-LastStep e.code)
        ]
    finish-LastStep retry_at retry_id (not_executed (other_error text)) =
        plain_failure-LastStep text
