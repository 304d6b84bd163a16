-- ===== src/Store/Both.antt =====
-- The task store and the event store of internal/store that `MemoryTaskCreationStore` and
-- `MemoryTaskTransitionStore` lock together, and the errors that both kinds of method check first.
use taskpulse.Prelude.{String, Bool, is_some, lookup}
use taskpulse.Result.{Exec}
use taskpulse.Event.{TaskEvent}
use taskpulse.Store.Tasks.{MemoryTaskStore}
use taskpulse.Store.Events.{MemoryEventStore, record_event}

pub record Stores : Type 0 where
  pub task_store : MemoryTaskStore
  pub event_store : MemoryEventStore

-- A step on the task store alone.
abbrev pub on_tasks : {A : Type 0} → Exec MemoryTaskStore A → Exec Stores A
on_tasks m s = let (r, tasks) = m s.task_store in (r, record s { task_store = tasks })

-- A step on the event store alone.
abbrev pub on_events : {A : Type 0} → Exec MemoryEventStore A → Exec Stores A
on_events m s = let (r, events) = m s.event_store in (r, record s { event_store = events })

-- `_, exists := s.eventStore.eventsByID[eventID]`
abbrev pub event_exists : String → Stores → Bool
event_exists id s = is_some (lookup id s.event_store.events_by_id)

abbrev pub add_event : TaskEvent → Stores → Stores
add_event e s = record s { event_store = record_event e s.event_store }
