-- ===== src/Store/Effect.antt =====
-- What a method over the stores of internal/store may do to them, told apart from how it is coded.
use taskpulse.Prelude.{ℕ, String, ◌≡◌, true, false, none, some, lookup, insert}
use taskpulse.Task.{Task, is_running, is_queued}
use taskpulse.Task.WellFormed.{IsWellFormed}
use taskpulse.Task.Legal.{IsLegal}
use taskpulse.Event.{TaskEvent}
use taskpulse.Store.Tasks.{store_task, index_key, next_version}
use taskpulse.Store.Events.{record_event}
use taskpulse.Store.Both.{Stores, add_event}

abbrev pub advanced : Task → Task
advanced t = record t { version = next_version t.version }

-- The stores after the task and its event are written.
abbrev pub changed : Task → TaskEvent → Stores → Stores
changed t e s = add_event e (record s { task_store = store_task (advanced t) s.task_store })

-- The stores after the task and its first event are added.
abbrev pub added : Task → TaskEvent → Stores → Stores
added t e s = record {
  task_store = record {
    tasks = insert t.id t s.task_store.tasks;
    task_ids_by_idempotency_key = index_key t s.task_store.task_ids_by_idempotency_key;
  };
  event_store = record_event e s.event_store;
}

abbrev pub renewed : String → Task → ℕ → ℕ → Stores → Stores
renewed k p until now s = record s {
  task_store = record s.task_store {
    tasks =
        insert k
          (record p {
            lease_expires_at = some until;
            last_heartbeat_at = some now;
            updated_at = now;
          })
          s.task_store.tasks;
  };
}

abbrev pub IsNewEvent : TaskEvent → Stores → Type 0
IsNewEvent e s = lookup e.id s.event_store.events_by_id ≡ none

pub data Effect (s s' : Stores) : Type 0 where
  idle : s' ≡ s → Effect s s'
  -- A live task takes a legal step to its next version, and one new event of it is recorded.
  change :
      (p t : Task) (e : TaskEvent)
      → lookup t.id s.task_store.tasks ≡ some p
      → IsLegal p t
      → e.task_id ≡ t.id
      → IsNewEvent e s
      → s' ≡ changed t e s
      → Effect s s'
  -- The lease of a running task is renewed; its version stays and nothing is recorded.
  renew :
      (k : String) (p : Task) (until now : ℕ)
      → lookup k s.task_store.tasks ≡ some p
      → is_running p.status ≡ true
      → s' ≡ renewed k p until now s
      → Effect s s'
  -- A new, queued task comes with its first event.
  add :
      (t : Task) (e : TaskEvent)
      → lookup t.id s.task_store.tasks ≡ none
      → is_queued t.status ≡ true
      → IsWellFormed t
      → e.task_id ≡ t.id
      → IsNewEvent e s
      → s' ≡ added t e s
      → Effect s s'

-- How one claim of a task ends: nothing changes; or the task, stored as it runs, takes a legal step by
-- which it no longer runs, under its next version, with one new event.
pub data LastStep (id : String) (s s' : Stores) : Type 0 where
  kept : s' ≡ s → LastStep id s s'
  stepped :
      (p t : Task) (e : TaskEvent)
      → t.id ≡ id
      → is_running t.status ≡ false
      → lookup t.id s.task_store.tasks ≡ some p
      → IsLegal p t
      → e.task_id ≡ t.id
      → IsNewEvent e s
      → s' ≡ changed t e s
      → LastStep id s s'

pub LastStep-Effect : {id : String} {s s' : Stores} → LastStep id s s' → Effect s s'
LastStep-Effect (kept same) = idle same
LastStep-Effect (stepped p t e own rests found legal of_task fresh same) =
    change p t e found legal of_task fresh same
