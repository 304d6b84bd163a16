-- ===== src/Store/Tasks.antt =====
-- internal/store/task_store.go and memory_task_store.go: the in-memory task store.
-- A pointer into the map is the key under which the task is stored; what the code writes through
-- the pointer is an assignment to that key. The clones that the methods return are values here.
-- Their proofs are in the modules below. The mutex is not modelled: each method holds it from its first access to its return.
pub mod Orders
pub mod Claiming
pub mod Expiry
pub mod Turns
pub mod Unordered
use taskpulse.Prelude.{
  ℕ, ◌+◌, ◌%◌, ◌^◌, String, Bool, true, false, not, ◌&&◌, ◌||◌, Option, none, some, [], ◌∷◌, ℤ,
  is_nonpos, magnitude, ltb, leb, ◌==◌, is_empty, text_eq, text_ltb, text_append, is_some,
  if◌then◌else◌, Assoc, lookup, insert,
}
use taskpulse.Result.{
  Error, Result, ok, err, Context, Exec, return, fail, lift, require, ◌>>=◌, ◌>>◌, fail_if, check,
  task_not_found, task_already_exists, nil_task, no_task_available, task_conflict, invalid_claim,
  invalid_lease_renewal, lease_lost, no_expired_task, invalid_cleanup_time, idempotency_conflict,
}
use taskpulse.Task.{
  Task, ClaimKind, initial, retry, recovery, running, failed, is_queued, is_running, is_retrying,
  move_to,
}
use taskpulse.Store.Select.{select}

pub record MemoryTaskStore : Type 0 where
  pub tasks : Assoc Task
  pub task_ids_by_idempotency_key : Assoc String

abbrev pub new_memory_task_store : MemoryTaskStore
new_memory_task_store = record { tasks = []; task_ids_by_idempotency_key = [] }

-- `uint64` addition.
abbrev pub next_version : ℕ → ℕ
next_version v = (v + 1) % 2 ^ 64

abbrev pub idempotency_index_key : String → String → String
idempotency_index_key workflow key = text_append workflow (text_append "\0" key)

pub record ClaimOptions : Type 0 where
  pub worker_id : String
  pub workflow : String
  pub now : ℕ
  pub lease_duration : ℤ

unfoldable pub validate_claim : ClaimOptions → Result (Unit {0})
validate_claim o =
    if is_empty o.worker_id || o.now == 0 || is_nonpos o.lease_duration
    then err invalid_claim
    else ok tt

pub record RenewLeaseOptions : Type 0 where
  pub task_id : String
  pub worker_id : String
  pub now : ℕ
  pub lease_duration : ℤ

unfoldable pub validate_renewal : RenewLeaseOptions → Result (Unit {0})
validate_renewal o =
    if is_empty o.task_id || is_empty o.worker_id || o.now == 0 || is_nonpos o.lease_duration
    then err invalid_lease_renewal
    else ok tt

-- `m[key] = id` unless the request has no key.
abbrev pub index_key : Task → Assoc String → Assoc String
index_key t ids =
    if is_empty t.idempotency_key
    then ids
    else insert (idempotency_index_key t.workflow t.idempotency_key) t.id ids

abbrev pub store_task : Task → MemoryTaskStore → MemoryTaskStore
store_task t s = record s { tasks = insert t.id t s.tasks }

-- The key of the task is taken, if it has one.
abbrev key_taken : Task → MemoryTaskStore → Bool
key_taken t s =
    not (is_empty t.idempotency_key)
    && is_some
        (lookup (idempotency_index_key t.workflow t.idempotency_key) s.task_ids_by_idempotency_key)

unfoldable pub create : Context → Option Task → Exec MemoryTaskStore (Unit {0})
create ctx task s =
    (do
      check ctx
      t ← require task nil_task
      fail_if (is_some (lookup t.id s.tasks)) task_already_exists
      fail_if (key_taken t s) idempotency_conflict
      λ s. (
        ok tt,
        record {
          tasks = insert t.id t s.tasks;
          task_ids_by_idempotency_key = index_key t s.task_ids_by_idempotency_key;
        },
      ))
      s

unfoldable pub get : Context → String → Exec MemoryTaskStore Task
get ctx id s = (do check ctx; require (lookup id s.tasks) task_not_found) s

unfoldable pub update : Context → Option Task → Exec MemoryTaskStore (Unit {0})
update ctx task s =
    (do
      check ctx
      t ← require task nil_task
      stored ← require (lookup t.id s.tasks) task_not_found
      fail_if (not (stored.version == t.version)) task_conflict
      fail_if (not (text_eq stored.idempotency_key t.idempotency_key)) task_conflict
      λ s. (ok tt, store_task (record t { version = next_version t.version }) s))
      s

-- The time that a candidate's pointer leads to; only tasks that have a lease are compared.
abbrev pub lease_time : Task → ℕ
lease_time t = elim t.lease_expires_at [ none ↦ 0 | some at ↦ at ]

-- `workflow != "" && task.Workflow != workflow`
abbrev pub other_workflow : String → Task → Bool
other_workflow workflow t = not (is_empty workflow) && not (text_eq t.workflow workflow)

-- A running task whose lease has run out at `now`.
abbrev pub lease_expired : ℕ → Task → Bool
lease_expired now t = is_running t.status && (is_some t.lease_expires_at && leb (lease_time t) now)

-- What the first loop of `claimNextLocked` does not skip.
unfoldable pub recoverable : ClaimOptions → Task → Bool
recoverable o t =
    not (other_workflow o.workflow t) && (lease_expired o.now t && ltb t.retry_count t.max_retries)

unfoldable pub lease_before : Task → Task → Bool
lease_before t s =
    ltb (lease_time t) (lease_time s) || (lease_time t == lease_time s && text_ltb t.id s.id)

-- What the second loop does not skip.
unfoldable pub available : ClaimOptions → Task → Bool
available o t =
    not (other_workflow o.workflow t)
    && ((is_queued t.status || is_retrying t.status) && leb t.available_at o.now)

unfoldable pub available_before : Task → Task → Bool
available_before t s =
    ltb t.available_at s.available_at
    || (t.available_at == s.available_at && ltb t.created_at s.created_at)
    || (t.available_at == s.available_at && t.created_at == s.created_at && text_ltb t.id s.id)

-- The task with its new lease.
abbrev pub lease_to : ClaimOptions → Task → Task
lease_to o t = record t {
  lease_owner = o.worker_id;
  lease_expires_at = some (o.now + magnitude o.lease_duration);
  last_heartbeat_at = none;
  version = next_version t.version;
}

-- The copy that is returned, the copy from before the claim, and the kind of claim.
abbrev pub Claim : Type 0
Claim = Task × Task × ClaimKind

abbrev claimed_kind : Task → ClaimKind
claimed_kind t = if is_retrying t.status then retry else initial

-- The end of `claimNextLocked`: the selected task under its key `k`, which was `previous`.
grant : ClaimOptions → String → Task → ClaimKind → Result Task → Exec MemoryTaskStore Claim
grant o k previous kind (err e) s = (err e, s)
grant o k previous kind (ok t) s =
    (ok (lease_to o t, previous, kind), record s { tasks = insert k (lease_to o t) s.tasks })

claim_available : ClaimOptions → Option (String × Task) → Exec MemoryTaskStore Claim
unfolding grant move_to
claim_available o none s = (err no_task_available, s)
claim_available o (some (k, t)) s = grant o k t (claimed_kind t) (move_to t running o.now) s

claim_selected :
    ClaimOptions → Option (String × Task) → Option (String × Task) → Exec MemoryTaskStore Claim
unfolding grant claim_available
claim_selected o (some (k, t)) waiting s =
    grant o k t recovery (ok (record t { retry_count = t.retry_count + 1; updated_at = o.now })) s
claim_selected o none waiting s = claim_available o waiting s

unfoldable pub claim_next_locked : ClaimOptions → Exec MemoryTaskStore Claim
unfolding claim_selected
claim_next_locked o s =
    claim_selected o (select (recoverable o) lease_before s.tasks none)
      (select (available o) available_before s.tasks none) s

unfoldable pub claim_next : Context → ClaimOptions → Exec MemoryTaskStore Task
unfolding validate_claim claim_next_locked
claim_next ctx o s =
    (do check ctx; lift (validate_claim o); claim ← claim_next_locked o; return claim.0) s

-- The lease is held by this worker and has not run out.
abbrev pub holds_lease : RenewLeaseOptions → Task → Bool
holds_lease o t =
    is_running t.status
    && (text_eq t.lease_owner o.worker_id
        && (is_some t.lease_expires_at && ltb o.now (lease_time t)))

unfoldable pub renew_lease : Context → RenewLeaseOptions → Exec MemoryTaskStore (Unit {0})
unfolding validate_renewal
renew_lease ctx o s =
    (do
      check ctx
      lift (validate_renewal o)
      t ← require (lookup o.task_id s.tasks) lease_lost
      fail_if (not (holds_lease o t)) lease_lost
      λ s. (
        ok tt,
        record s {
          tasks =
              insert o.task_id
                (record t {
                  lease_expires_at = some (o.now + magnitude o.lease_duration);
                  last_heartbeat_at = some o.now;
                  updated_at = o.now;
                })
                s.tasks;
        },
      ))
      s

-- What the loop of `failNextExpiredLocked` does not skip.
unfoldable pub exhausted : ℕ → Task → Bool
exhausted now t = lease_expired now t && leb t.max_retries t.retry_count

-- The error message is written before `MoveTo`, so it stays if `MoveTo` fails.
fail_expired : String → Task → Task → Result Task → Exec MemoryTaskStore (Task × Task)
fail_expired k previous noted (err e) s = (err e, record s { tasks = insert k noted s.tasks })
fail_expired k previous noted (ok t) s =
    let u = record t { version = next_version t.version } in
    (ok (u, previous), record s { tasks = insert k u s.tasks })

fail_selected : ℕ → Option (String × Task) → Exec MemoryTaskStore (Task × Task)
unfolding fail_expired move_to
fail_selected now none s = (err no_expired_task, s)
fail_selected now (some (k, t)) s =
    let noted = record t { error_message = "task lease expired and retry budget exhausted" } in
    fail_expired k t noted (move_to noted failed now) s

unfoldable pub fail_next_expired_locked : ℕ → Exec MemoryTaskStore (Task × Task)
unfolding fail_selected
fail_next_expired_locked now s =
    fail_selected now (select (exhausted now) lease_before s.tasks none) s

unfoldable pub fail_next_expired : Context → ℕ → Exec MemoryTaskStore Task
unfolding fail_next_expired_locked
fail_next_expired ctx now s =
    (do
      check ctx
      fail_if (now == 0) invalid_cleanup_time
      (t, previous) ← fail_next_expired_locked now
      return t)
      s
