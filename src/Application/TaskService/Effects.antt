-- ===== src/Application/TaskService/Effects.antt =====
-- Each operation of internal/application/task_service.go that writes has one effect on the stores, or
-- none.
use taskpulse.Prelude.{
  ℕ, String, ◌≡◌, refl, ◌⊎◌, inl, inr, true, some, arith, is_empty, Bool-cases, ℤ,
}
use taskpulse.Result.{Result, ok, err, Context, continue, return, Result-cases}
use taskpulse.Task.{Task, is_queued, new_task}
use taskpulse.Task.WellFormed.{IsWellFormed, new_task-IsWellFormed}
use taskpulse.Event.{Json, TaskEvent, task_created, new_task_event}
use taskpulse.Store.Both.{Stores}
use taskpulse.Store.Effect.{Effect, idle}
use taskpulse.Store.Tasks.Claiming.{IsKeyed}
use taskpulse.Store.Creation.{create_task_with_event}
use taskpulse.Store.Creation.Once.{create-Effect}
use taskpulse.Store.Cancellation.{cancel_task_with_event}
use taskpulse.Store.Cancellation.Once.{cancel-Effect}
use taskpulse.Application.TaskService.{CreateTaskInput, Fresh, hand_in, create_task, cancel_task}

new_task-queued :
    (id workflow input : String) (max_retries : ℤ) (now : ℕ) (t : Task)
    → new_task id workflow input max_retries now ≡ ok t
    → is_queued t.status ≡ true
unfolding new_task
new_task-queued id workflow input max_retries now t e = ground arith

keyed_IsWellFormed :
    (t : Task) (key : String) → IsWellFormed t → IsWellFormed (record t { idempotency_key = key })
keyed_IsWellFormed t key w = record {
  unowned = w.unowned;
  unleased = w.unleased;
  ended = w.ended;
  begun = w.begun;
  budgeted = w.budgeted;
  progressed = w.progressed;
}

-- An answer made of the result keeps the effect.
answered-Effect :
    {A B : Type 0} (s : Stores) (f : A → B) (out : Result A × Stores)
    → Effect s out.1
    → Effect s (continue out.0 (λ a. return (f a)) out.1).1
answered-Effect s f (ok a, s') h = h
answered-Effect s f (err x, s') h = h

module _ (json : Json) (ctx : Context) (s : Stores) where
  hand_in-Effect :
      (t : Task) (event : Result TaskEvent)
      → is_queued t.status ≡ true
      → IsWellFormed t
      → Effect s (hand_in json ctx t event s).1
  unfolding hand_in
  hand_in-Effect t (err x) queued sound = idle refl
  hand_in-Effect t (ok e) queued sound =
      answered-Effect s (λ r. record { task = r.task; created = r.created })
        (create_task_with_event json ctx (some t) (some e) s)
        (create-Effect json ctx t e s queued sound)

  create_guarded :
      (i : CreateTaskInput) (fresh : Fresh)
      → (create_task json ctx i fresh s
          ≡ continue
              (new_task fresh.task_id i.workflow i.input i.max_retries fresh.now)
              (λ t.
                hand_in json ctx
                  (record t { idempotency_key = i.idempotency_key })
                  (new_task_event fresh.event_id t.id task_created "task created" "{}" t.progress
                    fresh.now))
              s)
        ⊎ ((create_task json ctx i fresh s).1 ≡ s)
  unfolding create_task
  create_guarded i fresh = ground arith

  pub create_task-Effect :
      (i : CreateTaskInput) (fresh : Fresh) → Effect s (create_task json ctx i fresh s).1
  create_task-Effect i fresh = elim (create_guarded i fresh) [
    | inr same ↦ idle same
    | inl same ↦
        rw same
          (elim (Result-cases (new_task fresh.task_id i.workflow i.input i.max_retries fresh.now)) [
            | inr (x, m) ↦ rw m (idle refl)
            | inl (t, m) ↦ rw m (
                hand_in-Effect (record t { idempotency_key = i.idempotency_key }) _
                  (new_task-queued fresh.task_id i.workflow i.input i.max_retries fresh.now t m)
                  (keyed_IsWellFormed t i.idempotency_key (
                    new_task-IsWellFormed fresh.task_id i.workflow i.input i.max_retries fresh.now t
                      m)))
          ])
  ]

  pub cancel_task-Effect :
      (task_id event_id : String) (now : ℕ)
      → IsKeyed s.task_store.tasks
      → Effect s (cancel_task ctx task_id event_id now s).1
  unfolding cancel_task
  cancel_task-Effect task_id event_id now keyed = elim (Bool-cases (is_empty task_id)) [
    | inl bad ↦ rw bad (idle refl)
    | inr good ↦ rw good (
        answered-Effect s (λ r. r.task) (cancel_task_with_event ctx task_id event_id now s)
          (cancel-Effect ctx task_id event_id now s keyed))
  ]
