-- ===== src/Application/WorkerTasks/Operations/Leased.antt =====
-- The common parts of the worker operations: the task under its lease, and the write at the end.
use taskpulse.Prelude.{
  ℕ, String, ◌≡◌, refl, sym, ◌⊎◌, inl, inr, subst, Bool, true, Option, none, some, arith, lookup,
  insert, magnitude, ap, ◌+◌, List, Option-cases, Bool-cases,
}
use taskpulse.Result.{Error, Result, ok, err, Context, Exec, continue, Exec-cases}
use taskpulse.Task.{Task, TaskStatus, is_running}
use taskpulse.Task.Legal.{IsLegal}
use taskpulse.Event.{TaskEvent}
use taskpulse.Store.Both.{Stores, on_tasks}
use taskpulse.Store.Effect.{Effect, idle, renew}
use taskpulse.Store.Tasks.{get, RenewLeaseOptions, renew_lease, MemoryTaskStore}
use taskpulse.Store.Transition.{update_task_with_event}
use taskpulse.Store.Transition.Atomic.{update-Effect}
use taskpulse.Application.Codec.{Codec}
use taskpulse.Application.WorkerTasks.Tokens.{
  is_held, validate_lease_token, resolve_lease_version, prepare_running_task,
  replay_worker_operation,
}
use taskpulse.Application.WorkerTasks.Operations.{or_replay, leased_task, save, get_leased}

-- A read of the stores after an operation adds no effect.
pub read-Effect :
    (ctx : Context) (id : String) (s s' : Stores)
    → Effect s s'
    → Effect s (on_tasks (get ctx id) s').1
unfolding get
read-Effect none id s s' h = elim (Option-cases (lookup id s'.task_store.tasks)) [
  | inl e ↦ rw e h
  | inr (t, e) ↦ rw e h
]
read-Effect (some x) id s s' h = h

pub get_leased-Effect :
    (codec : Codec) (ctx : Context) (id : String) (s s' : Stores)
    → Effect s s'
    → Effect s (get_leased codec ctx id s').1
unfolding get_leased get
get_leased-Effect codec none id s s' h = elim (Option-cases (lookup id s'.task_store.tasks)) [
  | inl e ↦ rw e h
  | inr (t, e) ↦ rw e h
]
get_leased-Effect codec (some x) id s s' h = h

pub or_replay-Effect :
    (replayed : Option Task) (agrees : Task → Bool) (fresh : Exec Stores Task) (s : Stores)
    → Effect s (fresh s).1
    → Effect s (or_replay replayed agrees fresh s).1
or_replay-Effect none agrees fresh s h = h
or_replay-Effect (some t) agrees fresh s h = elim (Bool-cases (agrees t)) [
  | inl e ↦ rw e (idle refl)
  | inr e ↦ rw e (idle refl)
]

-- What follows a step whose effect is known.
pub then-Effect :
    (s : Stores) (out : Result Task × Stores) (f : Task → Exec Stores Task)
    → Effect s out.1
    → ((t : Task) (s' : Stores) → Effect s s' → Effect s (f t s').1)
    → Effect s (continue out.0 f out.1).1
then-Effect s (ok t, s') f h rest = rest t s' h
then-Effect s (err x, s') f h rest = h

-- What follows a step that only reads.
pub read_first-Effect :
    {A : Type 0} (s : Stores) (out : Result A × Stores) (f : A → Exec Stores Task)
    → out.1 ≡ s
    → ((a : A) → Effect s (f a s).1)
    → Effect s (continue out.0 f out.1).1
read_first-Effect s (ok a, s') f same h = subst (λ u. Effect s (f a u).1) (sym same) (h a)
read_first-Effect s (err x, s') f same h = idle same

pub replay_reads :
    (codec : Codec) (ctx : Context) (s : Stores) (id worker token : String)
    (statuses : List TaskStatus)
    → (replay_worker_operation codec ctx id worker token statuses s).1 ≡ s
unfolding replay_worker_operation get
replay_reads codec ctx s id worker token statuses = ground arith

pub validate_reads :
    (codec : Codec) (ctx : Context) (s : Stores) (id worker token : String)
    → (validate_lease_token codec ctx id worker token s).1 ≡ s
unfolding validate_lease_token get
validate_reads codec ctx s id worker token = ground arith

renewed_as :
    (ctx : Context) (o : RenewLeaseOptions) (s s' : MemoryTaskStore) (p : Task)
    → lookup o.task_id s.tasks ≡ some p
    → renew_lease ctx o s ≡ (ok tt, s')
    → (is_running p.status ≡ true)
      × (s' ≡ record s {
        tasks =
            insert o.task_id
              (record p {
                lease_expires_at = some (o.now + magnitude o.lease_duration);
                last_heartbeat_at = some o.now;
                updated_at = o.now;
              })
              s.tasks;
      })
unfolding renew_lease
renewed_as ctx o s s' p found h = (ground arith, ground arith)

not_renewed :
    (ctx : Context) (o : RenewLeaseOptions) (s s' : MemoryTaskStore) (x : Error)
    → renew_lease ctx o s ≡ (err x, s')
    → s' ≡ s
unfolding renew_lease
not_renewed ctx o s s' x h = ground arith

not_found_renewed :
    (ctx : Context) (o : RenewLeaseOptions) (s : MemoryTaskStore)
    → lookup o.task_id s.tasks ≡ none
    → (renew_lease ctx o s).1 ≡ s
unfolding renew_lease
not_found_renewed ctx o s missing = ground arith

-- A renewal of a lease writes the running task back with its new lease, or nothing.
pub renew_lease-Effect :
    (ctx : Context) (o : RenewLeaseOptions) (s : Stores)
    → Effect s (on_tasks (renew_lease ctx o) s).1
renew_lease-Effect ctx o s = elim (Option-cases (lookup o.task_id s.task_store.tasks)) [
  | inl missing ↦
      idle (ap (λ u. record s { task_store = u }) (not_found_renewed ctx o s.task_store missing))
  | inr (p, found) ↦ elim (Exec-cases (renew_lease ctx o s.task_store)) [
    | inl (a, ts, h) ↦
        let (running, made) = renewed_as ctx o s.task_store ts p found h in
        rw h (
          renew o.task_id p (o.now + magnitude o.lease_duration) o.now found running
            (ap (λ u. record s { task_store = u }) made))
    | inr (x, ts, h) ↦
        rw h (idle (ap (λ u. record s { task_store = u }) (not_renewed ctx o s.task_store ts x h)))
  ]
]

module _ (codec : Codec) (ctx : Context) (s : Stores) where
  pub leased_ok :
      (id worker token : String) (at : ℕ) (p : Task) (s' : Stores)
      → leased_task codec ctx id worker token at s ≡ (ok p, s')
      → (s' ≡ s) × (lookup id s.task_store.tasks ≡ some p) × (is_held worker at p ≡ true)
  unfolding leased_task resolve_lease_version prepare_running_task get
  leased_ok id worker token at p s' h = (ground arith, ground arith, ground arith)

  leased_err :
      (id worker token : String) (at : ℕ) (x : Error) (s' : Stores)
      → leased_task codec ctx id worker token at s ≡ (err x, s')
      → s' ≡ s
  unfolding leased_task resolve_lease_version prepare_running_task get
  leased_err id worker token at x s' h = ground arith

  -- The task is there under its lease, or the operation ends.
  pub leased_cases :
      (id worker token : String) (at : ℕ)
      → ((p : Task) × (leased_task codec ctx id worker token at s ≡ (ok p, s))
          × (lookup id s.task_store.tasks ≡ some p)
          × (is_held worker at p ≡ true))
        ⊎ ((x : Error) × (leased_task codec ctx id worker token at s ≡ (err x, s)))
  leased_cases id worker token at = elim (Exec-cases (leased_task codec ctx id worker token at s)) [
    | inl (p, s', h) ↦
        let (same, found, held) = leased_ok id worker token at p s' h in
        inl (
          p,
          subst (λ u. leased_task codec ctx id worker token at s ≡ (ok p, u)) same h,
          found,
          held,
        )
    | inr (x, s', h) ↦ inr (
      x,
      subst (λ u. leased_task codec ctx id worker token at s ≡ (err x, u))
          (leased_err id worker token at x s' h) h,
    )
  ]

  pub save-Effect :
      (p t : Task) (event : Result TaskEvent)
      → lookup p.id s.task_store.tasks ≡ some p
      → IsLegal p t
      → Effect s (save codec ctx t event s).1
  unfolding save
  save-Effect p t (err x) found legal = idle refl
  save-Effect p t (ok e) found legal = saved (
      update-Effect ctx p t e s
        (subst (λ k. lookup k s.task_store.tasks ≡ some p) (sym legal.same_id) found) legal)
    where
      saved :
          Effect s (update_task_with_event ctx (some t) (some e) s).1
          → Effect s (save codec ctx t (ok e) s).1
      saved h = elim (Exec-cases (update_task_with_event ctx (some t) (some e) s)) [
        | inl (a, s', q) ↦ rw q (rw q at h)
        | inr (x, s', q) ↦ rw q (rw q at h)
      ]
