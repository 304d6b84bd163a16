-- ===== src/Store/Events.antt =====
-- internal/store/memory_event_store.go: the in-memory event store.
pub mod Sorted
use taskpulse.Prelude.{
  ℕ, String, Bool, true, false, Option, none, some, List, [], ◌∷◌, ◌++◌, ltb, is_some,
  if◌then◌else◌, Assoc, lookup, insert,
}
use taskpulse.Result.{
  Error, Result, ok, err, Context, Exec, return, require, ◌>>=◌, ◌>>◌, fail_if, check, nil_event,
  event_already_exists,
}
use taskpulse.Event.{TaskEvent}
use taskpulse.Store.Sorting.{sort}

pub record MemoryEventStore : Type 0 where
  pub events_by_id : Assoc TaskEvent
  pub events_by_task_id : Assoc (List TaskEvent)

abbrev pub new_memory_event_store : MemoryEventStore
new_memory_event_store = record { events_by_id = []; events_by_task_id = [] }

-- A missing key reads as the nil slice.
abbrev pub events_of : String → MemoryEventStore → List TaskEvent
events_of task_id s = elim (lookup task_id s.events_by_task_id) [ none ↦ [] | some events ↦ events ]

-- The two assignments by which every store method records an event.
unfoldable pub record_event : TaskEvent → MemoryEventStore → MemoryEventStore
record_event e s = record {
  events_by_id = insert e.id e s.events_by_id;
  events_by_task_id = insert e.task_id (events_of e.task_id s ++ e ∷ []) s.events_by_task_id;
}

unfoldable pub append : Context → Option TaskEvent → Exec MemoryEventStore (Unit {0})
unfolding record_event
append ctx event s =
    (do
      check ctx
      e ← require event nil_event
      fail_if (is_some (lookup e.id s.events_by_id)) event_already_exists
      λ s. (ok tt, record_event e s))
      s

-- `copied[i].CreatedAt.Before(copied[j].CreatedAt)`
abbrev pub earlier : TaskEvent → TaskEvent → Bool
earlier e f = ltb e.created_at f.created_at

unfoldable pub list_by_task_id : Context → String → Exec MemoryEventStore (List TaskEvent)
unfolding sort
list_by_task_id ctx task_id s = (do check ctx; return (sort earlier (events_of task_id s))) s
