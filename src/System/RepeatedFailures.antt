-- ===== src/System/RepeatedFailures.antt =====
-- A `FailTask` request of internal/application/worker_task_service.go that is sent twice, with the
-- scheduler of cmd/taskpulse/main.go.
use taskpulse.Prelude.{
  if◌then◌else◌, ℕ, ◌+◌, String, ◌≡◌, ◌≢◌, refl, sym, ap, ◌∙◌, subst, Bool, true, false, not, ◌||◌,
  Option, none, some, [], ◌∷◌, ℤ, pos, arith, inl, inr, lookup, lookup-insert_self, Bool-cases,
  is_neg, is_blank,
}
use taskpulse.Result.{
  Error, Result, ok, err, Context, Exec-cases, Result-cases, continue, task_conflict, return, ◌>>◌,
  fail_if, invalid_worker_request,
}
use taskpulse.Task.{
  Task, TaskStatus, running, retrying, failed, is_running, schedule_retry, move_to,
}
use taskpulse.Event.{Json, TaskEvent, new_task_retrying_event}
use taskpulse.Store.Both.{Stores, on_tasks}
use taskpulse.Store.Effect.{changed, advanced}
use taskpulse.Store.Tasks.{get, next_version}
use taskpulse.Store.Tasks.Claiming.{IsKeyed}
use taskpulse.Store.Transition.{update_task_with_event}
use taskpulse.Application.Codec.{Codec, LeaseTokenPayload}
use taskpulse.Application.WorkerTasks.Tokens.{
  token_payload, is_held, has_status, replay_worker_operation,
}
use taskpulse.Application.WorkerTasks.Operations.{
  RetryScheduling, FailTaskInput, Clock, leased_task, is_exhausted, after_schedule, fail_for_good,
  failure_event, failure_message, retry_or_fail, fail_fresh, fail_task,
}
use taskpulse.Application.WorkerTasks.Operations.Leased.{leased_ok}
use taskpulse.Application.WorkerTasks.Operations.Replay.{noted_failure_conflicts}
use taskpulse.Worker.Backoff.{RetryPolicy, delay}
use taskpulse.Worker.ExecutionError.{ExecutionError, transient, new_execution_error}
use taskpulse.Worker.RetryScheduler.{noted, reschedule, schedule, policy_for, external_schedule}
use taskpulse.Runtime.Reports.{save_ok}
use taskpulse.System.{retry_scheduling}
use taskpulse.System.Fencing.{accepted_version}

refused :
    {x : Error} {v s' : Stores} {u : Task}
    → ◌≡◌ {A = Result Task × Stores} (err x, v) (ok u, s')
    → ⊥
refused k = cc

-- What a retry leaves: the task backs off under its next version, with the code alone.
record IsNoted (t : Task) (code : String) (u : Task) (s' : Stores) : Type 0 where
  waits : u.status ≡ retrying
  same_id : u.id ≡ t.id
  same_version : u.version ≡ t.version
  noted_code : u.error_message ≡ code
  stored : lookup u.id s'.task_store.tasks ≡ some (advanced u)

rescheduled_as :
    (t u : Task) (now at : ℕ)
    → schedule_retry t now at ≡ ok u
    → (u.status ≡ retrying) × (u.id ≡ t.id) × (u.version ≡ t.version)
unfolding schedule_retry move_to
rescheduled_as t u now at h = (ground arith, ground arith, ground arith)

update_stored :
    (ctx : Context) (t : Task) (e : TaskEvent) (s s' : Stores)
    → update_task_with_event ctx (some t) (some e) s ≡ (ok tt, s')
    → s' ≡ changed t e s
unfolding update_task_with_event
update_stored ctx t e s s' h = ground arith

-- An update and then the task.
answered :
    (ctx : Context) (t u : Task) (e : TaskEvent) (s s' : Stores)
    → (update_task_with_event ctx (some t) (some e) >> return t) s ≡ (ok u, s')
    → (u ≡ t) × (lookup t.id s'.task_store.tasks ≡ some (advanced t))
answered ctx t u e s s' h = elim (Exec-cases (update_task_with_event ctx (some t) (some e) s)) [
  | inr (x, v, q) ↦ absurd (refused (rw q at h))
  | inl (a, v, q) ↦ made v (rw q at h) (update_stored ctx t e s v q)
]
  where
    made :
        (v : Stores)
        → ◌≡◌ {A = Result Task × Stores} (ok t, v) (ok u, s')
        → v ≡ changed t e s
        → (u ≡ t) × (lookup t.id s'.task_store.tasks ≡ some (advanced t))
    made v k c =
        let there : lookup t.id v.task_store.tasks ≡ some (advanced t) =
          ap (λ x. lookup t.id x.task_store.tasks) c
          ∙ lookup-insert_self t.id (advanced t) s.task_store.tasks in
        (cc, cc)

module _ (json : Json) (int63n : ℕ → ℕ) (ctx : Context) where
  reschedule-IsNoted :
      (t u : Task) (e : ExecutionError) (policy : RetryPolicy) (now : ℕ) (id : String)
      (s s' : Stores)
      → reschedule json int63n ctx t e policy now id s ≡ (ok u, s')
      → IsNoted t e.code u s'
  unfolding reschedule
  reschedule-IsNoted t u e policy now id s s' h =
      elim (Result-cases (delay int63n policy (t.retry_count + 1) e.retry_after)) [
        | inr (x, m) ↦ absurd (refused (rw m at h))
        | inl (d, m) ↦ elim (Result-cases (schedule_retry t now (now + d))) [
          | inr (x, n) ↦ absurd (refused (rw (m, n) at h))
          | inl (v, n) ↦
              recorded d v (rescheduled_as t v now (now + d) n)
                (new_task_retrying_event json id (some (noted v e)) e.code (pos d) now)
                (rw (m, n) at h)
        ]
      ]
    where
      recorded :
          (d : ℕ) (v : Task)
          → (v.status ≡ retrying) × (v.id ≡ t.id) × (v.version ≡ t.version)
          → (event : Result TaskEvent)
          → continue event
              (λ y. update_task_with_event ctx (some (noted v e)) (some y) >> return (noted v e))
              s
            ≡ (ok u, s')
          → IsNoted t e.code u s'
      recorded d v (waits, own, version) (err x) k = absurd (refused k)
      recorded d v (waits, own, version) (ok y) k =
          let (same, there) = answered ctx (noted v e) u y s s' k in
          subst (λ w. IsNoted t e.code w s') (sym same)
            (record {
              waits = waits;
              same_id = own;
              same_version = version;
              noted_code = refl;
              stored = there;
            })

  schedule_made :
      (t u : Task) (e : ExecutionError) (policy : RetryPolicy) (now : ℕ) (id : String)
      (s s' : Stores)
      → schedule json int63n ctx (some t) (some e) policy now id s ≡ (ok u, s')
      → reschedule json int63n ctx t e policy now id s ≡ (ok u, s')
  unfolding schedule
  schedule_made t u e policy now id s s' h = ground arith

  error_code_kept :
      (code message : String) (retry_after : ℤ) (e : ExecutionError)
      → new_execution_error transient code retry_after (some message) ≡ ok e
      → e.code ≡ code
  unfolding new_execution_error
  error_code_kept code message retry_after e h = ground arith

  external_schedule-IsNoted :
      (t u : Task) (code message : String) (retry_after : ℤ) (now : ℕ) (id : String) (s s' : Stores)
      → external_schedule json int63n ctx t code message retry_after now id s ≡ (ok u, s')
      → IsNoted t code u s'
  unfolding external_schedule
  external_schedule-IsNoted t u code message retry_after now id s s' h =
      elim (Result-cases (new_execution_error transient code retry_after (some message))) [
        | inr (x, m) ↦ absurd (refused (rw m at h))
        | inl (e, m) ↦
            subst (λ c. IsNoted t c u s') (error_code_kept code message retry_after e m)
              (reschedule-IsNoted t u e (policy_for t) now id s s'
                (schedule_made t u e (policy_for t) now id s s' (rw m at h)))
      ]

is_failed-move_to : (t u : Task) (now : ℕ) → move_to t failed now ≡ ok u → u.status ≢ retrying
unfolding move_to
is_failed-move_to t u now h k = ground arith

fails_for_good :
    (codec : Codec) (ctx : Context) (i : FailTaskInput) (now : ℕ) (event_id : String) (t u : Task)
    (s s' : Stores)
    → fail_for_good codec ctx i now event_id t s ≡ (ok u, s')
    → u.status ≢ retrying
unfolding fail_for_good
fails_for_good codec ctx i now event_id t u s s' h waits =
    elim (Result-cases (move_to (record t { error_message = failure_message i }) failed now)) [
      | inr (x, m) ↦ absurd (refused (rw m at h))
      | inl (v, m) ↦
          let (same, made) =
            save_ok codec ctx v u (failure_event codec ctx i now event_id v) s s' (rw m at h) in
          is_failed-move_to (record t { error_message = failure_message i }) v now m
            (ap (λ x. x.status) (sym same) ∙ waits)
    ]

running_unlisted :
    (st : TaskStatus) → is_running st ≡ true → has_status st (retrying ∷ failed ∷ []) ≡ false
running_unlisted running e = refl
running_unlisted _ e = cc

-- The task that runs is no answer to a repeated failure.
not_replayed :
    (codec : Codec) (id worker token : String) (s : Stores) (p : LeaseTokenPayload) (t : Task)
    → token_payload codec id worker token ≡ ok p
    → lookup id s.task_store.tasks ≡ some t
    → is_running t.status ≡ true
    → replay_worker_operation codec none id worker token (retrying ∷ failed ∷ []) s ≡ (ok none, s)
unfolding replay_worker_operation get
not_replayed codec id worker token s p t named found runs =
    ground (arith, running_unlisted t.status runs)

held_runs :
    (worker : String) (at : ℕ) (t : Task) → is_held worker at t ≡ true → is_running t.status ≡ true
held_runs worker at t h = ground arith

module _ (codec : Codec) (scheduling : RetryScheduling) (i : FailTaskInput) (now : ℕ)
    (event_id : String) (t u : Task) (s s' : Stores) where
  -- A request that led to a retry is the schedule, and then the task as it is stored.
  retry_scheduled :
      retry_or_fail codec none (some scheduling) i now event_id t s ≡ (ok u, s')
      → u.status ≡ retrying
      → (v : Task) × (s1 : Stores) × (scheduling t i.error_code i.error_message i.retry_after s
          ≡ (ok v, s1))
        × (on_tasks (get none v.id) s1 ≡ (ok u, s'))
  unfolding retry_or_fail after_schedule
  retry_scheduled h waits = by_flag i.retryable h
    where
      chosen :
          (out : Result Task × Stores)
          → scheduling t i.error_code i.error_message i.retry_after s ≡ out
          → after_schedule codec none out.0 (fail_for_good codec none i now event_id t) out.1
            ≡ (ok u, s')
          → (v : Task) × (s1 : Stores) × (scheduling t i.error_code i.error_message i.retry_after s
              ≡ (ok v, s1))
            × (on_tasks (get none v.id) s1 ≡ (ok u, s'))
      chosen (ok v, s1) e k = (v, s1, e, k)
      chosen (err x, s1) e k = elim (Bool-cases (is_exhausted x)) [
        | inl spent ↦
            absurd (fails_for_good codec none i now event_id t u s1 s' (rw spent at k) waits)
        | inr other ↦ absurd (refused (rw other at k))
      ]

      by_flag :
          (b : Bool)
          → (if not b
              then fail_for_good codec none i now event_id t s
              else after_schedule codec none
                  (scheduling t i.error_code i.error_message i.retry_after s).0
                  (fail_for_good codec none i now event_id t)
                  (scheduling t i.error_code i.error_message i.retry_after s).1)
            ≡ (ok u, s')
          → (v : Task) × (s1 : Stores) × (scheduling t i.error_code i.error_message i.retry_after s
              ≡ (ok v, s1))
            × (on_tasks (get none v.id) s1 ≡ (ok u, s'))
      by_flag false k = absurd (fails_for_good codec none i now event_id t u s s' k waits)
      by_flag true k = chosen (scheduling t i.error_code i.error_message i.retry_after s) refl k

get_stored :
    (id : String) (u : Task) (s s' : Stores)
    → on_tasks (get none id) s ≡ (ok u, s')
    → (s' ≡ s) × (lookup id s.task_store.tasks ≡ some u)
unfolding get
get_stored id u s s' h = ground arith

fail_fresh-retry_or_fail :
    (codec : Codec) (scheduler : Option RetryScheduling) (i : FailTaskInput) (clock : Clock)
    (event_id : String) (t u : Task) (s s' : Stores)
    → leased_task codec none i.task_id i.worker_id i.lease_token clock.checked_at s ≡ (ok t, s)
    → fail_fresh codec none scheduler i clock event_id s ≡ (ok u, s')
    → retry_or_fail codec none scheduler i clock.now event_id t s ≡ (ok u, s')
unfolding fail_fresh
fail_fresh-retry_or_fail codec scheduler i clock event_id t u s s' held h =
    checked (is_blank i.error_code || is_blank i.error_message) (is_neg i.retry_after)
      (rw held at h)
  where
    checked :
        (b c : Bool)
        → (fail_if b (invalid_worker_request "error_code and error_message are required")
              >> (fail_if c (invalid_worker_request "retry_after cannot be negative")
                  >> retry_or_fail codec none scheduler i clock.now event_id t))
            s
          ≡ (ok u, s')
        → retry_or_fail codec none scheduler i clock.now event_id t s ≡ (ok u, s')
    checked true c k = cc
    checked false true k = cc
    checked false false k = k

-- A worker reports a failure of the task that it holds the lease of, and the server answers that the
-- task is to be retried. If the worker sends the same request again, since it missed the answer, and
-- nothing happened meanwhile, it is refused as a conflict and changes nothing: the scheduler kept the
-- code of the error alone, and the request is compared with the code and the message.
pub retried_failure_conflicts :
    (codec : Codec) (int63n : ℕ → ℕ) (i : FailTaskInput) (clock clock' : Clock)
    (event_id event_id' retry_id : String) (retry_at : ℕ) (scheduler : Option RetryScheduling)
    (s s' : Stores) (t u : Task)
    → IsKeyed s.task_store.tasks
    → leased_task codec none i.task_id i.worker_id i.lease_token clock.checked_at s ≡ (ok t, s)
    → fail_task codec none
        (some (retry_scheduling codec int63n none retry_at retry_id))
        i
        clock
        event_id
        s
      ≡ (ok u, s')
    → u.status ≡ retrying
    → fail_task codec none scheduler i clock' event_id' s' ≡ (err task_conflict, s')
unfolding fail_task
retried_failure_conflicts codec int63n i clock clock' event_id event_id' retry_id retry_at scheduler
      s s' t u keyed held first waits =
    let scheduling = retry_scheduling codec int63n none retry_at retry_id in
    let (p, named, carried) =
      accepted_version codec none i.task_id i.worker_id i.lease_token clock.checked_at s s t held in
    let (_, found, lease) =
      leased_ok codec none s i.task_id i.worker_id i.lease_token clock.checked_at t s held in
    let fresh =
      not_replayed codec i.task_id i.worker_id i.lease_token s p t named found
        (held_runs i.worker_id clock.checked_at t lease) in
    let tried =
      fail_fresh-retry_or_fail codec (some scheduling) i clock event_id t u s s' held
        (rw fresh at first) in
    let (v, s1, scheduled, read) =
      retry_scheduled codec scheduling i clock.now event_id t u s s' tried waits in
    let left =
      external_schedule-IsNoted codec.json int63n none t v i.error_code i.error_message
        i.retry_after retry_at retry_id s s1 scheduled in
    let (same, there) = get_stored v.id u s1 s' read in
    let key : v.id ≡ i.task_id = left.same_id ∙ keyed.keyed i.task_id t found in
    let answer : u ≡ advanced v = cc (there, left.stored) in
    let stored : lookup i.task_id s'.task_store.tasks ≡ some u =
      ap (λ x. lookup i.task_id x.task_store.tasks) same
      ∙ subst (λ k. lookup k s1.task_store.tasks ≡ some u) key there in
    noted_failure_conflicts codec scheduler i clock' event_id' s' p u named stored waits
      (ap (λ x. x.version) answer ∙ ap next_version (left.same_version ∙ carried))
      (ap (λ x. x.error_message) answer ∙ left.noted_code)
