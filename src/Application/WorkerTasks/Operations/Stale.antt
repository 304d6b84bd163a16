-- ===== src/Application/WorkerTasks/Operations/Stale.antt =====
-- Requests of a worker whose token is out of date.
use taskpulse.Prelude.{
  ℕ, ℤ, String, ◌≡◌, refl, ◌⊎◌, inl, inr, Bool, false, ◌||◌, Option, none, some, arith, lookup,
  List, [], ◌∷◌, ◌==◌, Bool-cases, is_neg, is_empty, is_blank, is_nonpos, leb, magnitude,
}
use taskpulse.Result.{
  Error, Result, ok, err, Context, Exec, continue, lease_lost, invalid_worker_request,
}
use taskpulse.Task.{Task, TaskStatus, running, succeeded, failed, queued, retrying}
use taskpulse.Store.Both.{Stores}
use taskpulse.Store.Tasks.{get}
use taskpulse.Application.Codec.{Codec, LeaseTokenPayload}
use taskpulse.Application.WorkerTasks.Tokens.{
  token_payload, has_status, validate_lease_token, resolve_lease_version, replay_worker_operation,
}
use taskpulse.Application.WorkerTasks.Operations.{
  RetryScheduling, Clock, or_replay, leased_task, complete_fresh, complete_task, report_progress,
  fail_fresh, fail_task, release_fresh, release_task, heartbeat_task,
}

-- An error that leaves the stores as they were.
abbrev pub IsRefused : Stores → Result Task × Stores → Type 0
IsRefused s out = (x : Error) × (out ≡ (err x, s))

-- The token names this task and worker, but the task runs under another version.
pub record IsStale (codec : Codec) (s : Stores) (id worker token : String) : Type 0 where
  pub payload : LeaseTokenPayload
  pub named : token_payload codec id worker token ≡ ok payload
  pub task : Task
  pub stored : lookup id s.task_store.tasks ≡ some task
  pub runs : task.status ≡ running
  pub later : (task.version == payload.version) ≡ false

module _ (codec : Codec) (ctx : Context) (s : Stores) (id worker token : String)
    (h : IsStale codec s id worker token) where
  stale_replay :
      (statuses : List TaskStatus)
      → has_status running statuses ≡ false
      → (replay_worker_operation codec ctx id worker token statuses s ≡ (ok none, s))
        ⊎ ((x : Error) × (replay_worker_operation codec ctx id worker token statuses s
              ≡ (err x, s)))
  unfolding replay_worker_operation get
  stale_replay statuses other = elim (cases ctx) [ inl e ↦ inl e | inr e ↦ inr e ]
    where
      settled : has_status h.task.status statuses ≡ false
      settled = rw h.runs other

      cases :
          (c : Context)
          → (replay_worker_operation codec c id worker token statuses s ≡ (ok none, s))
            ⊎ ((x : Error) × (replay_worker_operation codec c id worker token statuses s
                  ≡ (err x, s)))
      cases none = inl (ground (arith, h.named, h.stored, settled))
      cases (some x) = inr (x, ground (arith, h.named))

  stale_leased : (at : ℕ) → (x : Error) × (leased_task codec ctx id worker token at s ≡ (err x, s))
  unfolding leased_task resolve_lease_version validate_lease_token get
  stale_leased at = cases ctx
    where
      cases : (c : Context) → (x : Error) × (leased_task codec c id worker token at s ≡ (err x, s))
      cases none = (lease_lost, ground (arith, h.named, h.stored, h.later))
      cases (some x) = (x, ground (arith, h.named))

  stale_token : (x : Error) × (validate_lease_token codec ctx id worker token s ≡ (err x, s))
  unfolding validate_lease_token get
  stale_token = cases ctx
    where
      cases :
          (c : Context)
          → (x : Error) × (validate_lease_token codec c id worker token s ≡ (err x, s))
      cases none = (lease_lost, ground (arith, h.named, h.stored, h.later))
      cases (some x) = (x, ground (arith, h.named))

  -- An operation that first looks for a replay, and goes on under the lease.
  stale_then :
      (statuses : List TaskStatus) (agrees : Task → Bool) (fresh : Exec Stores Task)
      → has_status running statuses ≡ false
      → IsRefused s (fresh s)
      → IsRefused s (
          continue
            (replay_worker_operation codec ctx id worker token statuses s).0
            (λ r. or_replay r agrees fresh)
            (replay_worker_operation codec ctx id worker token statuses s).1)
  stale_then statuses agrees fresh other refused = elim (stale_replay statuses other) [
    | inl e ↦ rw e refused
    | inr (x, e) ↦ rw e (x, refl)
  ]

-- A worker whose token is of an older claim is refused, while the task runs under a later version:
-- its completions, failures, releases, progress reports and heartbeats are errors and leave the
-- stores as they are.
pub stale_worker-IsRefused :
    (codec : Codec) (ctx : Context) (scheduler : Option RetryScheduling) (s : Stores)
    (id worker token : String)
    → IsStale codec s id worker token
    → (clock : Clock) (event_id : String)
    → ((output result_ref : String)
        → IsRefused s (
            complete_task codec ctx
              (record {
                task_id = id;
                worker_id = worker;
                lease_token = token;
                output = output;
                result_ref = result_ref;
              })
              clock
              event_id
              s))
      × ((code message : String) (retryable : Bool) (retry_after : ℤ)
          → IsRefused s (
              fail_task codec ctx scheduler
                (record {
                  task_id = id;
                  worker_id = worker;
                  lease_token = token;
                  error_code = code;
                  error_message = message;
                  retryable = retryable;
                  retry_after = retry_after;
                })
                clock
                event_id
                s))
      × IsRefused s (
          release_task codec ctx
            (record { task_id = id; worker_id = worker; lease_token = token })
            clock
            event_id
            s)
      × ((progress : ℤ) (message : String)
          → IsRefused s (
              report_progress codec ctx
                (record {
                  task_id = id;
                  worker_id = worker;
                  lease_token = token;
                  progress = progress;
                  message = message;
                })
                clock
                event_id
                s))
      × ((lease_duration : ℤ)
          → IsRefused s (
              heartbeat_task codec ctx
                (record {
                  task_id = id;
                  worker_id = worker;
                  lease_token = token;
                  lease_duration = lease_duration;
                })
                clock.now
                s))
unfolding complete_task complete_fresh fail_task fail_fresh release_task release_fresh
    report_progress heartbeat_task
stale_worker-IsRefused codec ctx scheduler s id worker token h clock event_id =
    let (x, refused) = stale_leased codec ctx s id worker token h clock.checked_at in
    let (y, invalid) = stale_token codec ctx s id worker token h in
    (
      λ output result_ref.
          stale_then codec ctx s id worker token h (succeeded ∷ []) _ _ refl (x, rw refused refl),
      λ code message retryable retry_after.
          stale_then codec ctx s id worker token h (retrying ∷ failed ∷ []) _ _ refl
            (x, rw refused refl),
      stale_then codec ctx s id worker token h (queued ∷ []) _ _ refl (x, rw refused refl),
      λ progress message. elim (Bool-cases (is_neg progress || leb 100 (magnitude progress))) [
        | inl outside ↦
            rw outside (invalid_worker_request "progress must be between 0 and 99", refl)
        | inr inside ↦ rw inside (x, rw refused refl)
      ],
      λ lease_duration.
          elim (Bool-cases (is_empty id || is_blank worker || is_nonpos lease_duration)) [
            | inl bad ↦ rw bad (invalid_worker_request "", refl)
            | inr good ↦ rw good (y, rw invalid refl)
          ],
    )
