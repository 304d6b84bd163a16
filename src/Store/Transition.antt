-- ===== src/Store/Transition.antt =====
-- internal/store/task_transition_store.go: a change of a task and its event, made together.
pub mod Atomic
pub mod Spared
use taskpulse.Prelude.{
  ℕ, String, Bool, true, false, not, Option, none, some, ◌==◌, is_empty, is_some, text_eq, lookup,
  insert,
}
use taskpulse.Result.{
  Error, Result, ok, err, Context, Exec, return, require, lift, ◌>>=◌, ◌>>◌, fail_if, check,
  nil_task, nil_event, task_event_mismatch, task_not_found, task_conflict, event_already_exists,
  invalid_event_id, invalid_cleanup_time,
}
use taskpulse.Task.{Task}
use taskpulse.Event.{TaskEvent, Json, new_task_claimed_event, new_task_expired_event}
use taskpulse.Store.Tasks.{
  MemoryTaskStore, ClaimOptions, Claim, validate_claim, claim_next_locked, fail_next_expired_locked,
  store_task, next_version,
}
use taskpulse.Store.Both.{Stores, on_tasks, event_exists, add_event}

-- The event of a change that is made: it is recorded, or the task as it was is put back.
finish_change : Task → Task → Result TaskEvent → Exec Stores Task
finish_change t previous (err e) s =
    (err e, record s { task_store = store_task previous s.task_store })
finish_change t previous (ok event) s = (ok t, add_event event s)

-- What follows the claim, by its result and the task store after it.
claim_finish : Json → ClaimOptions → String → Result Claim × MemoryTaskStore → Exec Stores Task
unfolding finish_change
claim_finish json o event_id (err e, tasks) s = (err e, record s { task_store = tasks })
claim_finish json o event_id (ok (t, previous, kind), tasks) s =
    finish_change t previous (new_task_claimed_event json event_id (some t) kind o.now)
      (record s { task_store = tasks })

unfoldable pub claim_next_with_event : Json → Context → ClaimOptions → String → Exec Stores Task
unfolding validate_claim claim_finish
claim_next_with_event json ctx o event_id s =
    (do
      check ctx
      lift (validate_claim o)
      fail_if (is_empty event_id) invalid_event_id
      fail_if (event_exists event_id s) event_already_exists
      claim_finish json o event_id (claim_next_locked o s.task_store))
      s

pub expiry_finish : ℕ → String → Result (Task × Task) × MemoryTaskStore → Exec Stores Task
unfolding finish_change
expiry_finish now event_id (err e, tasks) s = (err e, record s { task_store = tasks })
expiry_finish now event_id (ok (t, previous), tasks) s =
    finish_change t previous (new_task_expired_event event_id (some t) now)
      (record s { task_store = tasks })

unfoldable pub fail_next_expired_with_event : Context → ℕ → String → Exec Stores Task
unfolding expiry_finish
fail_next_expired_with_event ctx now event_id s =
    (do
      check ctx
      fail_if (now == 0) invalid_cleanup_time
      fail_if (is_empty event_id) invalid_event_id
      fail_if (event_exists event_id s) event_already_exists
      expiry_finish now event_id (fail_next_expired_locked now s.task_store))
      s

unfoldable pub update_task_with_event :
    Context → Option Task → Option TaskEvent → Exec Stores (Unit {0})
update_task_with_event ctx task event s =
    (do
      check ctx
      t ← require task nil_task
      e ← require event nil_event
      fail_if (not (text_eq e.task_id t.id)) task_event_mismatch
      stored ← require (lookup t.id s.task_store.tasks) task_not_found
      fail_if (not (stored.version == t.version)) task_conflict
      fail_if (event_exists e.id s) event_already_exists
      λ s. (
        ok tt,
        add_event e (record s {
          task_store = store_task (record t { version = next_version t.version }) s.task_store;
        }),
      ))
      s
