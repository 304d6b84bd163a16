-- ===== src/Application/WorkerTasks/Scheduled.antt =====
-- The scheduler of cmd/taskpulse/main.go does what `FailTask` of the worker service relies on.
use taskpulse.Prelude.{
  ℕ, ◌+◌, String, ◌≡◌, refl, sym, ap, ◌∙◌, ◌⊎◌, inl, inr, true, false, some, pos, arith,
}
use taskpulse.Result.{
  Error, Result, ok, err, Context, Result-cases, continue, return, ◌>>◌, retry_budget_exhausted,
}
use taskpulse.Task.{Task, is_running, schedule_retry, terminal_statuses, move_to}
use taskpulse.Task.Legal.{IsLegal}
use taskpulse.Event.{Json, TaskEvent, new_task_retrying_event}
use taskpulse.Store.Both.{Stores}
use taskpulse.Store.Effect.{idle, LastStep, kept, LastStep-Effect}
use taskpulse.Store.Transition.{update_task_with_event}
use taskpulse.Store.Transition.Atomic.{IsWritable, stored-IsWritable}
use taskpulse.Worker.Backoff.{RetryPolicy, delay}
use taskpulse.Worker.ExecutionError.{ExecutionError, transient, new_execution_error}
use taskpulse.Worker.RetryScheduler.{noted, reschedule, schedule, policy_for, external_schedule}
use taskpulse.Application.WorkerTasks.Operations.{IsScheduling}

retried_IsLegal :
    (p t : Task) (e : ExecutionError) (now at : ℕ)
    → is_running p.status ≡ true
    → schedule_retry p now at ≡ ok t
    → IsLegal p (noted t e)
unfolding schedule_retry move_to terminal_statuses
retried_IsLegal p t e now at r m = record {
  live = ground arith;
  same_id = ground arith;
  same_version = ground arith;
  same_key = ground arith;
  same_workflow = ground arith;
  same_input = ground arith;
  same_budget = ground arith;
  same_creation = ground arith;
  sound = λ w. ground arith;
}

retried_rests :
    (p t : Task) (now at : ℕ) → schedule_retry p now at ≡ ok t → is_running t.status ≡ false
unfolding schedule_retry move_to
retried_rests p t now at m = ground arith

module _ (json : Json) (int63n : ℕ → ℕ) (ctx : Context) where
  reschedule-LastStep :
      (t : Task) (e : ExecutionError) (policy : RetryPolicy) (now : ℕ) (event_id : String)
      (s : Stores)
      → IsWritable ctx t s
      → is_running t.status ≡ true
      → LastStep t.id s (reschedule json int63n ctx t e policy now event_id s).1
  unfolding reschedule
  reschedule-LastStep t e policy now event_id s writable running =
      elim (Result-cases (delay int63n policy (t.retry_count + 1) e.retry_after)) [
        | inr (x, m) ↦ rw m (kept refl)
        | inl (d, m) ↦ rw m (elim (Result-cases (schedule_retry t now (now + d))) [
          | inr (x, n) ↦ rw n (kept refl)
          | inl (u, n) ↦ rw n (
              recorded d u (retried_rests t u now (now + d) n)
                (retried_IsLegal t u e now (now + d) running n)
                (new_task_retrying_event json event_id (some (noted u e)) e.code (pos d) now))
        ])
      ]
    where
      answered :
          (u : Task) (out : Result (Unit {0}) × Stores)
          → LastStep t.id s out.1
          → LastStep t.id s (continue out.0 (λ _. return u) out.1).1
      answered u (ok a, s') h = h
      answered u (err x, s') h = h

      recorded :
          (d : ℕ) (u : Task)
          → is_running u.status ≡ false
          → IsLegal t (noted u e)
          → (event : Result TaskEvent)
          → LastStep t.id s
              (continue event
                (λ v. update_task_with_event ctx (some (noted u e)) (some v) >> return (noted u e))
                s).1
      recorded d u rests legal (err x) = kept refl
      recorded d u rests legal (ok v) =
          answered (noted u e) (update_task_with_event ctx (some (noted u e)) (some v) s)
            (writable (noted u e) v rests legal)

  schedule_guarded :
      (t : Task) (e : ExecutionError) (policy : RetryPolicy) (now : ℕ) (event_id : String)
      (s : Stores)
      → (schedule json int63n ctx (some t) (some e) policy now event_id s
          ≡ reschedule json int63n ctx t e policy now event_id s)
        ⊎ ((schedule json int63n ctx (some t) (some e) policy now event_id s).1 ≡ s)
  unfolding schedule
  schedule_guarded t e policy now event_id s = ground arith

  reschedule_refused :
      (t : Task) (e : ExecutionError) (policy : RetryPolicy) (now : ℕ) (event_id : String)
      (s s' : Stores) (x : Error)
      → reschedule json int63n ctx t e policy now event_id s ≡ (err x, s')
      → s' ≡ s
  unfolding reschedule update_task_with_event
  reschedule_refused t e policy now event_id s s' x h = ground arith

  pub schedule-LastStep :
      (t : Task) (e : ExecutionError) (policy : RetryPolicy) (now : ℕ) (event_id : String)
      (s : Stores)
      → IsWritable ctx t s
      → is_running t.status ≡ true
      → LastStep t.id s (schedule json int63n ctx (some t) (some e) policy now event_id s).1
  schedule-LastStep t e policy now event_id s writable running =
      elim (schedule_guarded t e policy now event_id s) [
        | inl same ↦ rw same (reschedule-LastStep t e policy now event_id s writable running)
        | inr same ↦ kept same
      ]

  pub schedule_refused :
      (t : Task) (e : ExecutionError) (policy : RetryPolicy) (now : ℕ) (event_id : String)
      (s s' : Stores) (x : Error)
      → schedule json int63n ctx (some t) (some e) policy now event_id s ≡ (err x, s')
      → s' ≡ s
  schedule_refused t e policy now event_id s s' x h =
      elim (schedule_guarded t e policy now event_id s) [
        | inl same ↦ reschedule_refused t e policy now event_id s s' x (sym same ∙ h)
        | inr same ↦ sym (ap (λ out. out.1) h) ∙ same
      ]

  -- The scheduler of the server is one that `FailTask` may be given: for a stored, running task a
  -- schedule has one effect or none, and a report that the budget is exhausted changes nothing.
  pub external_schedule-IsScheduling :
      (now : ℕ) (event_id : String)
      → IsScheduling (λ t code message retry_after.
        external_schedule json int63n ctx t code message retry_after now event_id)
  unfolding external_schedule
  external_schedule-IsScheduling now event_id = record {
    effect = λ t code message retry_after s found running.
        elim (Result-cases (new_execution_error transient code retry_after (some message))) [
          | inr (x, m) ↦ rw m (idle refl)
          | inl (e, m) ↦ rw m (
              LastStep-Effect (
                schedule-LastStep t e (policy_for t) now event_id s
                  (stored-IsWritable ctx t s found) running))
        ];
    unspent = λ t code message retry_after s s' h.
        elim (Result-cases (new_execution_error transient code retry_after (some message))) [
          | inr (x, m) ↦ ground arith
          | inl (e, m) ↦
              schedule_refused t e (policy_for t) now event_id s s' retry_budget_exhausted
                (rw m at h)
        ];
  }
