-- ===== src/Store/Cancellation/Once.antt =====
-- What `CancelTaskWithEvent` of internal/store/task_cancellation_store.go promises.
use taskpulse.Prelude.{
  ℕ, String, ◌≡◌, refl, sym, ◌⊎◌, inl, inr, subst, Bool, true, false, none, some, arith, lookup,
  insert-restore, Option-cases,
}
use taskpulse.Result.{Error, Result, ok, err, Context, Exec-cases}
use taskpulse.Task.{Task, canceled, is_canceled, terminal_statuses}
use taskpulse.Task.Legal.{IsLegal}
use taskpulse.Event.{TaskEvent, task_canceled}
use taskpulse.Store.Tasks.Claiming.{IsKeyed}
use taskpulse.Store.Both.{Stores}
use taskpulse.Store.Effect.{Effect, idle, change, changed, advanced, IsNewEvent}
use taskpulse.Store.Cancellation.{TaskCancellationResult, cancel_task_with_event}

-- The canceled task, before its version is raised.
abbrev pub ended : ℕ → Task → Task
ended now p = record p {
  status = canceled;
  updated_at = now;
  finished_at = some now;
  lease_owner = "";
  lease_expires_at = none;
}

abbrev pub cancellation : String → ℕ → Task → TaskEvent
cancellation event_id now p = record {
  id = event_id;
  task_id = p.id;
  type = task_canceled;
  message = "task canceled";
  payload = "{\"reason\":\"requested_by_caller\"}";
  progress = p.progress;
  created_at = now;
}

ended_IsLegal : (now : ℕ) (p : Task) → terminal_statuses p.status ≡ false → IsLegal p (ended now p)
unfolding terminal_statuses
ended_IsLegal now p h = record {
  live = h;
  same_id = refl;
  same_version = refl;
  same_key = refl;
  same_workflow = refl;
  same_input = refl;
  same_budget = refl;
  same_creation = refl;
  sound = λ w. ground arith;
}

cancel_now :
    (ctx : Context) (id event_id : String) (now : ℕ) (s s' : Stores) (p u : Task)
    → lookup id s.task_store.tasks ≡ some p
    → p.id ≡ id
    → cancel_task_with_event ctx id event_id now s ≡ (ok (record { task = u; canceled = true }), s')
    → (terminal_statuses p.status ≡ false)
      × (u ≡ advanced (ended now p))
      × IsNewEvent (cancellation event_id now p) s
      × (s' ≡ changed (ended now p) (cancellation event_id now p) s)
unfolding cancel_task_with_event terminal_statuses
cancel_now ctx id event_id now s s' p u found keyed e = ground arith

cancel_again :
    (ctx : Context) (id event_id : String) (now : ℕ) (s s' : Stores) (u : Task)
    → cancel_task_with_event ctx id event_id now s
      ≡ (ok (record { task = u; canceled = false }), s')
    → (s' ≡ s) × (lookup id s.task_store.tasks ≡ some u) × (is_canceled u.status ≡ true)
unfolding cancel_task_with_event
cancel_again ctx id event_id now s s' u e = ground arith

cancel_refused :
    (ctx : Context) (id event_id : String) (now : ℕ) (s s' : Stores) (p : Task) (x : Error)
    → lookup id s.task_store.tasks ≡ some p
    → cancel_task_with_event ctx id event_id now s ≡ (err x, s')
    → s' ≡ s
unfolding cancel_task_with_event
cancel_refused ctx id event_id now s s' p x found e =
    ground (arith, insert-restore id p (advanced (ended now p)) s.task_store.tasks)

-- An answer, with the stores after it.
abbrev pub IsCancelOutcome :
    String → String → ℕ → Stores → Result TaskCancellationResult × Stores → Type 0
IsCancelOutcome id event_id now s (err x, s') = s' ≡ s
IsCancelOutcome id event_id now s (ok r, s') =
    ((r.canceled ≡ true)
      × ((p : Task) × (lookup id s.task_store.tasks ≡ some p)
          × (terminal_statuses p.status ≡ false)
          × (r.task ≡ advanced (ended now p))
          × IsNewEvent (cancellation event_id now p) s
          × (s' ≡ changed (ended now p) (cancellation event_id now p) s)))
    ⊎ ((r.canceled ≡ false)
        × (s' ≡ s)
        × (lookup id s.task_store.tasks ≡ some r.task)
        × (is_canceled r.task.status ≡ true))

no_task :
    (ctx : Context) (id event_id : String) (now : ℕ) (s : Stores)
    → lookup id s.task_store.tasks ≡ none
    → (x : Error) × (cancel_task_with_event ctx id event_id now s ≡ (err x, s))
unfolding cancel_task_with_event
no_task none id event_id now s missing =
    elim (Exec-cases (cancel_task_with_event none id event_id now s)) [
      | inl (r, s', h) ↦ ground arith
      | inr (x, s', h) ↦ (x, ground arith)
    ]
no_task (some x) id event_id now s missing = (x, refl)

answer_of :
    (ctx : Context) (id event_id : String) (now : ℕ) (s s' : Stores) (p u : Task) (b : Bool)
    → lookup id s.task_store.tasks ≡ some p
    → p.id ≡ id
    → cancel_task_with_event ctx id event_id now s ≡ (ok (record { task = u; canceled = b }), s')
    → IsCancelOutcome id event_id now s (ok (record { task = u; canceled = b }), s')
answer_of ctx id event_id now s s' p u true found keyed h =
    let (live, same, fresh, made) = cancel_now ctx id event_id now s s' p u found keyed h in
    inl (refl, (p, found, live, same, fresh, made))
answer_of ctx id event_id now s s' p u false found keyed h =
    let (same, there, canceled_before) = cancel_again ctx id event_id now s s' u h in
    inr (refl, same, there, canceled_before)

-- In a map with each task under its id, a cancellation either fails and changes nothing; or it moves
-- a live task to `canceled` under its next version, without lease and with an end time, and records
-- the new event of it; or it finds the task canceled before, returns it and changes nothing.
pub cancel-IsCancelOutcome :
    (ctx : Context) (id event_id : String) (now : ℕ) (s : Stores)
    → IsKeyed s.task_store.tasks
    → IsCancelOutcome id event_id now s (cancel_task_with_event ctx id event_id now s)
cancel-IsCancelOutcome ctx id event_id now s keyed =
    elim (Option-cases (lookup id s.task_store.tasks)) [
      | inl missing ↦ rw ((no_task ctx id event_id now s missing).1) refl
      | inr (p, found) ↦ elim (Exec-cases (cancel_task_with_event ctx id event_id now s)) [
        | inl (r, s', h) ↦ rw h (
            answer_of ctx id event_id now s s' p r.task r.canceled found (keyed.keyed id p found) h)
        | inr (x, s', h) ↦ rw h (cancel_refused ctx id event_id now s s' p x found h)
      ]
    ]

outcome-Effect :
    (id event_id : String) (now : ℕ) (s : Stores) (out : Result TaskCancellationResult × Stores)
    → IsKeyed s.task_store.tasks
    → IsCancelOutcome id event_id now s out
    → Effect s out.1
outcome-Effect id event_id now s (err x, s') keyed same = idle same
outcome-Effect id event_id now s (ok r, s') keyed
      (inl (yes_now, (p, found, live, same, fresh, made))) =
    change p (ended now p) (cancellation event_id now p)
      (subst (λ k. lookup k s.task_store.tasks ≡ some p) (sym (keyed.keyed id p found)) found)
      (ended_IsLegal now p live) refl fresh made
outcome-Effect id event_id now s (ok r, s') keyed (inr (before, same, found, done)) = idle same

pub cancel-Effect :
    (ctx : Context) (id event_id : String) (now : ℕ) (s : Stores)
    → IsKeyed s.task_store.tasks
    → Effect s (cancel_task_with_event ctx id event_id now s).1
cancel-Effect ctx id event_id now s keyed =
    outcome-Effect id event_id now s _ keyed (cancel-IsCancelOutcome ctx id event_id now s keyed)
