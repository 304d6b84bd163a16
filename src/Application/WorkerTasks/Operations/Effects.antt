-- ===== src/Application/WorkerTasks/Operations/Effects.antt =====
-- Each operation of internal/application/worker_task_service.go has one effect on the stores, or
-- none.
use taskpulse.Prelude.{
  ℕ, String, ◌≤◌, ◌≡◌, refl, sym, inl, inr, subst, Bool, true, false, Option, none, some, arith,
  lookup, magnitude, trim_space, is_blank, is_empty, is_nonpos, text_eq, [], ◌∷◌, Bool-cases, leb,
  is_neg, ◌||◌, ℤ, not, if◌then◌else◌,
}
use taskpulse.Result.{
  Result, ok, err, Context, continue, return, ◌>>=◌, retry_budget_exhausted, Result-cases,
}
use taskpulse.Task.{
  Task, succeeded, failed, queued, retrying, is_running, move_to, requeue_for_release,
}
use taskpulse.Event.{new_task_released_event}
use taskpulse.Store.Both.{Stores, on_tasks}
use taskpulse.Store.Effect.{Effect, idle}
use taskpulse.Store.Tasks.{get, RenewLeaseOptions, renew_lease, MemoryTaskStore, ClaimOptions}
use taskpulse.Store.Tasks.Claiming.{IsKeyed}
use taskpulse.Store.Transition.{claim_next_with_event}
use taskpulse.Store.Transition.Atomic.{claim_next_with_event-Effect}
use taskpulse.Application.Codec.{Codec}
use taskpulse.Application.WorkerTasks.Tokens.{
  is_held, validate_lease_token, replay_worker_operation, with_lease_token,
}
use taskpulse.Application.WorkerTasks.Operations.{
  RetryScheduling, IsScheduling, json_semantically_equal, CompleteTaskInput, ReportProgressInput,
  FailTaskInput, ReleaseTaskInput, HeartbeatTaskInput, ClaimTaskInput, Clock, or_replay, result_of,
  failure_message, save, get_leased, progress_event, complete_fresh, complete_task, report_progress,
  fail_for_good, after_schedule, retry_or_fail, fail_fresh, fail_task, release_fresh, release_task,
  heartbeat_task, claim_task,
}
use taskpulse.Application.WorkerTasks.Operations.Legal.{
  completed_IsLegal, failed_IsLegal, released_IsLegal, progressed_IsLegal,
}
use taskpulse.Application.WorkerTasks.Operations.Leased.{
  read-Effect, or_replay-Effect, then-Effect, get_leased-Effect, read_first-Effect, replay_reads,
  validate_reads, renew_lease-Effect, leased_cases, save-Effect,
}

running_of :
    (worker : String) (at : ℕ) (p : Task) → is_held worker at p ≡ true → is_running p.status ≡ true
running_of worker at p h = ground arith

in_range : (n : ℤ) → (is_neg n || leb 100 (magnitude n)) ≡ false → magnitude n ≤ 99
in_range n h = ground arith

-- The task under its own id.
under :
    (s : Stores) (id : String) (p : Task)
    → IsKeyed s.task_store.tasks
    → lookup id s.task_store.tasks ≡ some p
    → lookup p.id s.task_store.tasks ≡ some p
under s id p keyed found =
    subst (λ k. lookup k s.task_store.tasks ≡ some p) (sym (keyed.keyed id p found)) found

either-Effect :
    (s : Stores) (b : Bool) (x y : Result Task × Stores)
    → Effect s x.1
    → Effect s y.1
    → Effect s (if b then x else y).1
either-Effect s true x y h g = h
either-Effect s false x y h g = g

abbrev claim_options : ClaimTaskInput → ℕ → ClaimOptions
claim_options i now = record {
  worker_id = i.worker_id;
  workflow = trim_space i.workflow;
  now = now;
  lease_duration = i.lease_duration;
}

abbrev renewal : HeartbeatTaskInput → ℕ → RenewLeaseOptions
renewal i now = record {
  task_id = i.task_id;
  worker_id = i.worker_id;
  now = now;
  lease_duration = i.lease_duration;
}

module _ (codec : Codec) (ctx : Context) (s : Stores) (keyed : IsKeyed s.task_store.tasks) where
  complete_fresh-Effect :
      (i : CompleteTaskInput) (clock : Clock) (event_id : String)
      → Effect s (complete_fresh codec ctx i clock event_id s).1
  unfolding complete_fresh
  complete_fresh-Effect i clock event_id =
      elim (leased_cases codec ctx s i.task_id i.worker_id i.lease_token clock.checked_at) [
        | inr (x, l) ↦ rw l (idle refl)
        | inl (p, l, found, held) ↦
            rw l
              (elim (Result-cases
                (move_to (record p { result = result_of i; progress = 100 }) succeeded clock.now)) [
                  | inr (x, m) ↦ rw m (idle refl)
                  | inl (t, m) ↦ rw m (
                      save-Effect codec ctx s p t _ (under s i.task_id p keyed found) (
                        completed_IsLegal p t (result_of i) clock.now
                          (running_of i.worker_id clock.checked_at p held) m))
                ])
      ]

  release_fresh-Effect :
      (i : ReleaseTaskInput) (clock : Clock) (event_id : String)
      → Effect s (release_fresh codec ctx i clock event_id s).1
  unfolding release_fresh
  release_fresh-Effect i clock event_id =
      elim (leased_cases codec ctx s i.task_id i.worker_id i.lease_token clock.checked_at) [
        | inr (x, l) ↦ rw l (idle refl)
        | inl (p, l, found, held) ↦ rw l (elim (Result-cases (requeue_for_release p clock.now)) [
          | inr (x, m) ↦ rw m (idle refl)
          | inl (t, m) ↦ rw m (
              then-Effect s
                (save codec ctx t (new_task_released_event event_id (some t) clock.now) s)
                (λ u. on_tasks (get ctx u.id))
                (save-Effect codec ctx s p t _ (under s i.task_id p keyed found)
                  (released_IsLegal p t clock.now m))
                (λ u s'. read-Effect ctx u.id s s'))
        ])
      ]

  fail_for_good-Effect :
      (i : FailTaskInput) (now : ℕ) (event_id : String) (p : Task)
      → lookup p.id s.task_store.tasks ≡ some p
      → is_running p.status ≡ true
      → Effect s (fail_for_good codec ctx i now event_id p s).1
  unfolding fail_for_good
  fail_for_good-Effect i now event_id p found running =
      elim (Result-cases (move_to (record p { error_message = failure_message i }) failed now)) [
        | inr (x, m) ↦ rw m (idle refl)
        | inl (t, m) ↦ rw m (
            save-Effect codec ctx s p t _ found
              (failed_IsLegal p t (failure_message i) now running m))
      ]

  pub report_progress-Effect :
      (i : ReportProgressInput) (clock : Clock) (event_id : String)
      → Effect s (report_progress codec ctx i clock event_id s).1
  unfolding report_progress
  report_progress-Effect i clock event_id =
      elim (Bool-cases (is_neg i.progress || leb 100 (magnitude i.progress))) [
        | inl outside ↦ rw outside (idle refl)
        | inr inside ↦
            rw inside
              (elim (leased_cases codec ctx s i.task_id i.worker_id i.lease_token
                clock.checked_at) [
                  | inr (x, l) ↦ rw l (idle refl)
                  | inl (p, l, found, held) ↦
                      let t : Task = record p {
                        progress = magnitude i.progress;
                        updated_at = clock.now;
                      } in
                      rw l (
                        then-Effect s
                          (save codec ctx t (progress_event codec ctx i clock.now event_id t) s)
                          (λ u. get_leased codec ctx u.id)
                          (save-Effect codec ctx s p t _ (under s i.task_id p keyed found) (
                            progressed_IsLegal p (magnitude i.progress) clock.now
                              (running_of i.worker_id clock.checked_at p held)
                              (in_range i.progress inside)))
                          (λ u s'. get_leased-Effect codec ctx u.id s s'))
                ])
      ]

  after_schedule-Effect :
      (i : FailTaskInput) (now : ℕ) (event_id : String) (p : Task)
      → lookup p.id s.task_store.tasks ≡ some p
      → is_running p.status ≡ true
      → (out : Result Task × Stores) → Effect s out.1
      → ((s' : Stores) → out ≡ (err retry_budget_exhausted, s') → s' ≡ s)
      → Effect s (after_schedule codec ctx out.0 (fail_for_good codec ctx i now event_id p) out.1).1
  unfolding after_schedule
  after_schedule-Effect i now event_id p found running (ok t, s') h unspent =
      read-Effect ctx t.id s s' h
  after_schedule-Effect i now event_id p found running (err retry_budget_exhausted, s') h unspent =
      subst (λ u. Effect s (fail_for_good codec ctx i now event_id p u).1) (sym (unspent s' refl))
        (fail_for_good-Effect i now event_id p found running)
  after_schedule-Effect i now event_id p found running (err x, s') h unspent = h

  retry_or_fail-Effect :
      (scheduler : Option RetryScheduling) (i : FailTaskInput) (now : ℕ) (event_id : String)
      (p : Task)
      → ((f : RetryScheduling) → scheduler ≡ some f → IsScheduling f)
      → lookup p.id s.task_store.tasks ≡ some p
      → is_running p.status ≡ true
      → Effect s (retry_or_fail codec ctx scheduler i now event_id p s).1
  unfolding retry_or_fail
  retry_or_fail-Effect none i now event_id p lawful found running =
      fail_for_good-Effect i now event_id p found running
  retry_or_fail-Effect (some f) i now event_id p lawful found running =
      either-Effect s (not i.retryable) _ _ (fail_for_good-Effect i now event_id p found running) (
        after_schedule-Effect i now event_id p found running
          (f p i.error_code i.error_message i.retry_after s)
          ((lawful f refl).effect p i.error_code i.error_message i.retry_after s found running)
          (λ s' e. (lawful f refl).unspent p i.error_code i.error_message i.retry_after s s' e))

  fail_fresh-Effect :
      (scheduler : Option RetryScheduling) (i : FailTaskInput) (clock : Clock) (event_id : String)
      → ((f : RetryScheduling) → scheduler ≡ some f → IsScheduling f)
      → Effect s (fail_fresh codec ctx scheduler i clock event_id s).1
  unfolding fail_fresh
  fail_fresh-Effect scheduler i clock event_id lawful =
      elim (leased_cases codec ctx s i.task_id i.worker_id i.lease_token clock.checked_at) [
        | inr (x, l) ↦ rw l (idle refl)
        | inl (p, l, found, held) ↦
            rw l (elim (Bool-cases (is_blank i.error_code || is_blank i.error_message)) [
              | inl blank ↦ rw blank (idle refl)
              | inr given ↦ rw given (elim (Bool-cases (is_neg i.retry_after)) [
                | inl negative ↦ rw negative (idle refl)
                | inr valid ↦ rw valid (
                    retry_or_fail-Effect scheduler i clock.now event_id p lawful
                      (under s i.task_id p keyed found)
                      (running_of i.worker_id clock.checked_at p held))
              ])
            ])
      ]

  pub claim_task-Effect :
      (i : ClaimTaskInput) (now : ℕ) (event_id : String)
      → Effect s (claim_task codec ctx i now event_id s).1
  unfolding claim_task
  claim_task-Effect i now event_id =
      elim (Bool-cases
        (is_blank i.worker_id || is_blank i.workflow || is_nonpos i.lease_duration)) [
          | inl bad ↦ rw bad (idle refl)
          | inr good ↦ rw good (
              then-Effect s (claim_next_with_event codec.json ctx (claim_options i now) event_id s)
                (λ t. return (with_lease_token codec t))
                (claim_next_with_event-Effect codec.json ctx (claim_options i now) event_id s keyed)
                (λ t s' h. h))
        ]

  pub heartbeat_task-Effect :
      (i : HeartbeatTaskInput) (now : ℕ) → Effect s (heartbeat_task codec ctx i now s).1
  unfolding heartbeat_task
  heartbeat_task-Effect i now =
      elim (Bool-cases (is_empty i.task_id || is_blank i.worker_id || is_nonpos i.lease_duration)) [
        | inl bad ↦ rw bad (idle refl)
        | inr good ↦ rw good (
            read_first-Effect s
              (validate_lease_token codec ctx i.task_id i.worker_id i.lease_token s)
              (λ _.
                on_tasks (renew_lease ctx (renewal i now)) >>= λ _. get_leased codec ctx i.task_id)
              (validate_reads codec ctx s i.task_id i.worker_id i.lease_token)
              (λ _.
                renew_then-Effect (renew_lease ctx (renewal i now) s.task_store)
                  (renew_lease-Effect ctx (renewal i now) s)))
      ]
    where
      renew_then-Effect :
          (out : Result (Unit {0}) × MemoryTaskStore)
          → Effect s (record s { task_store = out.1 })
          → Effect s
              (continue out.0
                (λ _. get_leased codec ctx i.task_id)
                (record s { task_store = out.1 })).1
      renew_then-Effect (ok a, ts) h = get_leased-Effect codec ctx i.task_id s _ h
      renew_then-Effect (err x, ts) h = h

  pub complete_task-Effect :
      (i : CompleteTaskInput) (clock : Clock) (event_id : String)
      → Effect s (complete_task codec ctx i clock event_id s).1
  unfolding complete_task
  complete_task-Effect i clock event_id =
      read_first-Effect s
        (replay_worker_operation codec ctx i.task_id i.worker_id i.lease_token (succeeded ∷ []) s)
        (λ replayed.
          or_replay replayed (λ t. json_semantically_equal codec ctx t.result (result_of i))
            (complete_fresh codec ctx i clock event_id))
        (replay_reads codec ctx s i.task_id i.worker_id i.lease_token (succeeded ∷ []))
        (λ replayed. or_replay-Effect replayed _ _ s (complete_fresh-Effect i clock event_id))

  pub release_task-Effect :
      (i : ReleaseTaskInput) (clock : Clock) (event_id : String)
      → Effect s (release_task codec ctx i clock event_id s).1
  unfolding release_task
  release_task-Effect i clock event_id =
      read_first-Effect s
        (replay_worker_operation codec ctx i.task_id i.worker_id i.lease_token (queued ∷ []) s)
        (λ replayed. or_replay replayed (λ t. true) (release_fresh codec ctx i clock event_id))
        (replay_reads codec ctx s i.task_id i.worker_id i.lease_token (queued ∷ []))
        (λ replayed. or_replay-Effect replayed _ _ s (release_fresh-Effect i clock event_id))

  pub fail_task-Effect :
      (scheduler : Option RetryScheduling) (i : FailTaskInput) (clock : Clock) (event_id : String)
      → ((f : RetryScheduling) → scheduler ≡ some f → IsScheduling f)
      → Effect s (fail_task codec ctx scheduler i clock event_id s).1
  unfolding fail_task
  fail_task-Effect scheduler i clock event_id lawful =
      read_first-Effect s
        (replay_worker_operation codec ctx i.task_id i.worker_id i.lease_token
          (retrying ∷ failed ∷ []) s)
        (λ replayed.
          or_replay replayed (λ t. text_eq t.error_message (failure_message i))
            (fail_fresh codec ctx scheduler i clock event_id))
        (replay_reads codec ctx s i.task_id i.worker_id i.lease_token (retrying ∷ failed ∷ []))
        (λ replayed.
          or_replay-Effect replayed _ _ s (fail_fresh-Effect scheduler i clock event_id lawful))
