-- ===== src/Application/TaskDetail/Facts.antt =====
-- What the details of a task in internal/application/task_service.go tell.
use taskpulse.Prelude.{
  ℕ, ◌+◌, ◌-◌, ◌^◌, ◌≤◌, ◌<◌, String, false, not, ◌&&◌, none, some, List, [], ◌∷◌, ◌++◌, ◌≡◌, refl,
  sym, ◌∙◌, ap, subst, inl, inr, is_empty, is_some, if◌then◌else◌, reverse, All, arith, Bool-cases,
  Option-cases, lookup,
}
use taskpulse.Result.{ok}
use taskpulse.Task.{Task, is_retrying}
use taskpulse.Event.{TaskEvent}
use taskpulse.Store.Both.{Stores}
use taskpulse.Store.Events.{earlier, events_of, list_by_task_id}
use taskpulse.Store.Sorting.{sort}
use taskpulse.Store.Tasks.{get}
use taskpulse.Application.TaskService.{get_task}
use taskpulse.Application.TaskDetail.{
  DetailCodec, FailurePayload, TaskDetailResult, or_else, whole_ms, non_negative_duration,
  failure_of, failure_loop, populate_failure_diagnostics, worker_loop, set_worker,
  populate_worker_diagnostics, plain_detail, new_task_detail_result, get_task_detail,
}

module _ (codec : DetailCodec) where
  -- The loop writes the worker and the lease only.
  worker_loop-keeps :
      (es : List TaskEvent) (r : TaskDetailResult)
      → worker_loop codec es r ≡ record r {
        worker_id = (worker_loop codec es r).worker_id;
        lease_until = (worker_loop codec es r).lease_until;
      }
  unfolding worker_loop
  worker_loop-keeps [] r = refl
  worker_loop-keeps (e ∷ es) r = elim (Option-cases (codec.unmarshal_worker e.payload)) [
    | inl q ↦ rw (q, worker_loop) (worker_loop-keeps es r)
    | inr (p, q) ↦
        let u = set_worker p r in
        elim (Bool-cases (not (is_empty u.worker_id) && is_some u.lease_until)) [
          | inl full ↦ rw (q, worker_loop) (rw full refl)
          | inr more ↦ rw (q, worker_loop) (rw more (worker_loop-keeps es u))
        ]
  ]

  worker_loop-owner :
      (es : List TaskEvent) (r : TaskDetailResult)
      → is_empty r.worker_id ≡ false
      → (worker_loop codec es r).worker_id ≡ r.worker_id
  unfolding worker_loop
  worker_loop-owner [] r h = refl
  worker_loop-owner (e ∷ es) r h = elim (Option-cases (codec.unmarshal_worker e.payload)) [
    | inl q ↦ rw (q, worker_loop) (worker_loop-owner es r h)
    | inr (p, q) ↦ ground (arith, q, worker_loop-owner es (set_worker p r))
  ]

  -- The events from the last one on, up to the first that tells a failure.
  pub data IsLastFailure (before after : String) (es : List TaskEvent) : Type 0 where
    nowhere :
        All (λ e. failure_of codec e ≡ none) es → after ≡ before → IsLastFailure before after es
    told :
        (newer older : List TaskEvent) (e : TaskEvent) (p : FailurePayload)
        → es ≡ newer ++ e ∷ older
        → All (λ f. failure_of codec f ≡ none) newer
        → failure_of codec e ≡ some p
        → after ≡ p.error_code
        → IsLastFailure before after es

  failure_loop-keeps :
      (es : List TaskEvent) (r : TaskDetailResult)
      → failure_loop codec es r ≡ record r {
        error_code = (failure_loop codec es r).error_code;
        retryable = (failure_loop codec es r).retryable;
      }
  unfolding failure_loop
  failure_loop-keeps [] r = refl
  failure_loop-keeps (e ∷ es) r = elim (Option-cases (failure_of codec e)) [
    | inl q ↦ rw (q, failure_loop) (failure_loop-keeps es r)
    | inr (p, q) ↦ rw (q, failure_loop) refl
  ]

  failure_loop-IsLastFailure :
      (es : List TaskEvent) (r : TaskDetailResult)
      → IsLastFailure r.error_code (failure_loop codec es r).error_code es
  unfolding failure_loop
  failure_loop-IsLastFailure [] r = nowhere tt refl
  failure_loop-IsLastFailure (e ∷ es) r = elim (Option-cases (failure_of codec e)) [
    | inr (p, q) ↦ told [] es e p refl tt q (rw (q, failure_loop) refl)
    | inl q ↦ elim (failure_loop-IsLastFailure es r) [
      | nowhere none_es same ↦ nowhere (q, none_es) (rw (q, failure_loop) same)
      | told newer older f p split none_newer found code ↦
          told (e ∷ newer) older f p (ap (λ fs. e ∷ fs) split) (q, none_newer) found
            (rw (q, failure_loop) code)
    ]
  ]

-- The details tell the stored task: the retry time of a retrying task alone, the worker that holds
-- the lease, and the error code of the last event that has one.
pub record IsDetail (codec : DetailCodec) (t : Task) (events : List TaskEvent)
    (d : TaskDetailResult) : Type 0 where
  pub same_status : d.status ≡ t.status
  pub same_progress : d.progress ≡ t.progress
  pub same_output : d.result ≡ t.result
  pub same_message : d.error_message ≡ t.error_message
  pub same_budget : d.max_retries ≡ t.max_retries
  pub same_retries : d.retry_count ≡ t.retry_count
  pub same_input : d.input ≡ t.input
  pub same_reference : d.result_ref ≡ t.result
  pub same_version : d.version ≡ t.version
  pub next_retry : d.next_retry_at ≡ (if is_retrying t.status then some t.available_at else none)
  pub owner : is_empty t.lease_owner ≡ false → d.worker_id ≡ t.lease_owner
  pub failure : IsLastFailure codec "" d.error_code (reverse events)

new_task_detail_result-IsDetail :
    (codec : DetailCodec) (t : Task) (events : List TaskEvent) (now : ℕ)
    → IsDetail codec t events (new_task_detail_result codec t events now)
unfolding new_task_detail_result populate_failure_diagnostics populate_worker_diagnostics
new_task_detail_result-IsDetail codec t events now =
    let r = failure_loop codec (reverse events) (plain_detail t) in
    let by_failure = failure_loop-keeps codec (reverse events) (plain_detail t) in
    let by_worker = worker_loop-keeps codec (reverse events) r in
    record {
      same_status = ap (λ d. d.status) by_worker ∙ ap (λ d. d.status) by_failure;
      same_progress = ap (λ d. d.progress) by_worker ∙ ap (λ d. d.progress) by_failure;
      same_output = ap (λ d. d.result) by_worker ∙ ap (λ d. d.result) by_failure;
      same_message = ap (λ d. d.error_message) by_worker ∙ ap (λ d. d.error_message) by_failure;
      same_budget = ap (λ d. d.max_retries) by_worker ∙ ap (λ d. d.max_retries) by_failure;
      same_retries = ap (λ d. d.retry_count) by_worker ∙ ap (λ d. d.retry_count) by_failure;
      same_input = ap (λ d. d.input) by_worker ∙ ap (λ d. d.input) by_failure;
      same_reference = ap (λ d. d.result_ref) by_worker ∙ ap (λ d. d.result_ref) by_failure;
      same_version = ap (λ d. d.version) by_worker ∙ ap (λ d. d.version) by_failure;
      next_retry = ap (λ d. d.next_retry_at) by_worker ∙ ap (λ d. d.next_retry_at) by_failure;
      owner = λ held.
          let kept : r.worker_id ≡ t.lease_owner = ap (λ d. d.worker_id) by_failure in
          worker_loop-owner codec (reverse events) r (rw kept held) ∙ kept;
      failure =
          subst (λ code. IsLastFailure codec "" code (reverse events))
            (sym (ap (λ d. d.error_code) by_worker))
            (failure_loop-IsLastFailure codec (reverse events) (plain_detail t));
    }

-- The details of a stored task are read without a change. They show its status, progress, input,
-- result (also as the reference to it), error message, retries with their budget and version as stored, the time of the next retry exactly while it is retrying, its worker while
-- it is leased, and the error code of the last event that tells a failure, if there is one.
pub get_task_detail-IsDetail :
    (codec : DetailCodec) (task_id : String) (now : ℕ) (s : Stores) (t : Task)
    → is_empty task_id ≡ false
    → lookup task_id s.task_store.tasks ≡ some t
    → (d : TaskDetailResult) × (get_task_detail codec none task_id now s ≡ (ok d, s))
      × IsDetail codec t (sort earlier (events_of task_id s.event_store)) d
unfolding get_task_detail get_task get list_by_task_id
get_task_detail-IsDetail codec task_id now s t named found =
    let events = sort earlier (events_of task_id s.event_store) in
    (
      new_task_detail_result codec t events now,
      rw named (rw found refl),
      new_task_detail_result-IsDetail codec t events now,
    )

plain_duration : (a b : ℕ) → a ≤ b → b < a + 2 ^ 63 → non_negative_duration a b ≡ b - a
plain_duration a b le short = ground arith

rounded_sum :
    (a b c : ℕ)
    → a ≤ b
    → b ≤ c
    → c < a + 2 ^ 63
    → (whole_ms (non_negative_duration a b) + whole_ms (non_negative_duration b c)
        ≤ whole_ms (non_negative_duration a c))
      × (whole_ms (non_negative_duration a c)
          ≤ whole_ms (non_negative_duration a b) + whole_ms (non_negative_duration b c) + 1)
rounded_sum a b c h k short =
    rw
      (
        plain_duration a b h (omega (arith, k, short)),
        plain_duration b c k (omega (arith, h, short)),
        plain_duration a c (omega (arith, h, k)) short,
      )
      (omega (arith, h, k), omega (arith, h, k))

-- If a task was created before it started, and started before it ended or before now, in less than
-- 292 years, then its queue time and its execution time in milliseconds add up to its total time,
-- up to one millisecond that is lost in rounding.
pub durations_add_up :
    (codec : DetailCodec) (t : Task) (events : List TaskEvent) (now : ℕ)
    → t.created_at ≤ or_else t.started_at (or_else t.finished_at now)
    → or_else t.started_at (or_else t.finished_at now) ≤ or_else t.finished_at now
    → or_else t.finished_at now < t.created_at + 2 ^ 63
    → let d = new_task_detail_result codec t events now in
      (d.queue_duration_ms + d.execution_duration_ms ≤ d.total_duration_ms)
      × (d.total_duration_ms ≤ d.queue_duration_ms + d.execution_duration_ms + 1)
unfolding new_task_detail_result
durations_add_up codec t events now created started short = elim (Option-cases t.started_at) [
  | inl e ↦ rw e (omega arith, omega arith)
  | inr (at, e) ↦ rw e (
      rounded_sum t.created_at at (or_else t.finished_at now) (rw e at created) (rw e at started)
        short)
]
