-- ===== src/Store/Events/Sorted.antt =====
-- What `ListByTaskID` of internal/store/memory_event_store.go returns.
use taskpulse.Prelude.{filter, ℕ, String, ◌≡◌, refl, none, List, arith, IsOrder, ◌==◌}
use taskpulse.Result.{ok}
use taskpulse.Event.{TaskEvent}
use taskpulse.Store.Sorting.{IsSorted, sort, sort-IsSorted, filter-sort}
use taskpulse.Store.Events.{MemoryEventStore, earlier, events_of, list_by_task_id}

earlier-IsOrder : IsOrder earlier
earlier-IsOrder = record {
  irrefl = λ a. ground arith;
  asym = λ a b h. ground arith;
  skip = λ a b c h k. ground arith;
}

-- The events of a task come in the order of their creation times, and those of one time are exactly
-- the recorded ones of that time, in the order in which they were recorded. The store stays.
pub list_by_task_id-IsStable :
    (task_id : String) (s : MemoryEventStore)
    → (events : List TaskEvent) × (list_by_task_id none task_id s ≡ (ok events, s))
      × IsSorted earlier events
      × ((at : ℕ)
          → filter (λ e. e.created_at == at) events
            ≡ filter (λ e. e.created_at == at) (events_of task_id s))
unfolding list_by_task_id
list_by_task_id-IsStable task_id s = (
  sort earlier (events_of task_id s),
  refl,
  sort-IsSorted earlier earlier-IsOrder (events_of task_id s),
  λ at.
      filter-sort earlier (λ e. e.created_at == at) (events_of task_id s) (λ a b p q. ground arith),
)
