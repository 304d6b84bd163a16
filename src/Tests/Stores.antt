-- ===== src/Tests/Stores.antt =====
-- The in-memory stores of internal/store on one or two tasks, and the backoff of internal/worker.
use Prim.Native.Nat.{max}
use taskpulse.Prelude.{
  ℕ, ◌/◌, ◌≤◌, ◌<◌, String, ◌≡◌, refl, pos, none, some, List, arith, lookup, text_eq_iff, [],
  filter, ◌==◌, insert, false,
}
use taskpulse.Result.{ok}
use taskpulse.Task.{Task}
use taskpulse.Event.{TaskEvent}
use taskpulse.Store.Tasks.{
  ClaimOptions, validate_claim, claim_next_locked, fail_next_expired_locked,
}
use taskpulse.Store.Tasks.Claiming.{IsKeyed, IsClaimOutcome, claim_next_locked-IsClaimOutcome}
use taskpulse.Store.Tasks.Expiry.{IsExpiryOutcome, fail_next_expired_locked-IsExpiryOutcome}
use taskpulse.Store.Tasks.Unordered.{pick_same}
use taskpulse.Store.Tasks.Turns.{qualifies, claim_all, IsServed, claim_all-IsServed}
use taskpulse.Store.Stats.Counts.{count_tasks}
use taskpulse.Store.Sorting.{IsSorted}
use taskpulse.Store.Events.{earlier, events_of, record_event, list_by_task_id}
use taskpulse.Store.Events.Sorted.{list_by_task_id-IsStable}
use taskpulse.Store.Both.{Stores}
use taskpulse.Store.Creation.{create_task_with_event}
use taskpulse.Store.Creation.Once.{IsCreateOutcome, create-IsCreateOutcome, create_again}
use taskpulse.Store.Cancellation.{cancel_task_with_event}
use taskpulse.Store.Cancellation.Once.{IsCancelOutcome, cancel-IsCancelOutcome}
use taskpulse.Worker.Backoff.{RetryPolicy, delay, validate}
use taskpulse.Worker.Backoff.Bounds.{cap_for, delay_bounds}
use taskpulse.Tests.Fixtures.{
  plain_json, waiting_task, other_task, creation_event, one_task, two_tasks, two_tasks_turned,
  running_task, spent_task, holding, holding-IsKeyed,
}

abbrev options : ClaimOptions
options = record { worker_id = "w2"; workflow = ""; now = 60; lease_duration = pos 30 }

claim_next_locked-IsClaimOutcome_example :
    IsClaimOutcome options
      (holding running_task).task_store
      (claim_next_locked options (holding running_task).task_store)
claim_next_locked-IsClaimOutcome_example =
    claim_next_locked-IsClaimOutcome options (holding running_task).task_store
      (holding-IsKeyed running_task refl)

fail_next_expired_locked-IsExpiryOutcome_example :
    IsExpiryOutcome 60
      (holding spent_task).task_store
      (fail_next_expired_locked 60 (holding spent_task).task_store)
fail_next_expired_locked-IsExpiryOutcome_example =
    fail_next_expired_locked-IsExpiryOutcome 60 (holding spent_task).task_store
      (holding-IsKeyed spent_task refl)

two_tasks-IsKeyed : IsKeyed two_tasks.tasks
unfolding lookup
two_tasks-IsKeyed = record {
  distinct = (refl, (refl, tt));
  keyed = λ k u found. ground (arith, text_eq_iff "t1" k, text_eq_iff "t2" k);
}

two_tasks_turned-IsKeyed : IsKeyed two_tasks_turned.tasks
unfolding lookup
two_tasks_turned-IsKeyed = record {
  distinct = (refl, (refl, tt));
  keyed = λ k u found. ground (arith, text_eq_iff "t1" k, text_eq_iff "t2" k);
}

same_tasks : (j : String) → lookup j two_tasks_turned.tasks ≡ lookup j two_tasks.tasks
unfolding lookup
same_tasks j = ground (arith, text_eq_iff "t1" j, text_eq_iff "t2" j, text_eq_iff "t1" "t2")

pick_same_example :
    ((claim_next_locked options two_tasks).0 ≡ (claim_next_locked options two_tasks_turned).0)
    × ((fail_next_expired_locked 60 two_tasks).0 ≡ (fail_next_expired_locked 60 two_tasks_turned).0)
pick_same_example =
    pick_same options 60 two_tasks two_tasks_turned two_tasks-IsKeyed two_tasks_turned-IsKeyed
      same_tasks

list_by_task_id-IsStable_example :
    (events : List TaskEvent) × (list_by_task_id none "t1" one_task.event_store
      ≡ (ok events, one_task.event_store))
    × IsSorted earlier events
    × ((at : ℕ)
        → filter (λ e. e.created_at == at) events
          ≡ filter (λ e. e.created_at == at) (events_of "t1" one_task.event_store))
list_by_task_id-IsStable_example = list_by_task_id-IsStable "t1" one_task.event_store

abbrev second_event : TaskEvent
second_event = record creation_event { id = "e2"; task_id = "t2" }

create-IsCreateOutcome_example :
    IsCreateOutcome plain_json other_task second_event one_task
      (create_task_with_event plain_json none (some other_task) (some second_event) one_task)
create-IsCreateOutcome_example =
    create-IsCreateOutcome plain_json none other_task second_event one_task

abbrev no_tasks : Stores
no_tasks = record {
  task_store = record { tasks = []; task_ids_by_idempotency_key = [] };
  event_store = record { events_by_id = []; events_by_task_id = [] };
}

-- The request for the first task, under another id.
abbrev repeated_task : Task
repeated_task = record waiting_task { id = "t2"; created_at = 15 }

create_again_example :
    create_task_with_event plain_json none (some repeated_task) (some second_event) one_task
    ≡ (ok (record { task = waiting_task; created = false }), one_task)
unfolding create_task_with_event lookup insert record_event
create_again_example =
    create_again plain_json waiting_task repeated_task creation_event second_event no_tasks one_task
      refl refl refl refl refl refl

cancel-IsCancelOutcome_example :
    IsCancelOutcome "t1" "e2" 30
      (holding running_task)
      (cancel_task_with_event none "t1" "e2" 30 (holding running_task))
cancel-IsCancelOutcome_example =
    cancel-IsCancelOutcome none "t1" "e2" 30 (holding running_task)
      (holding-IsKeyed running_task refl)

abbrev policy : RetryPolicy
policy = record { max_retries = pos 3; base_delay = pos 100; max_delay = pos 1000 }

delay_bounds_example :
    (d : ℕ) × (delay (λ n. 0) policy 3 (pos 250) ≡ ok d)
    × (0 < d)
    × (250 ≤ d)
    × (cap_for policy 3 / 2 ≤ d)
    × (d ≤ max 250 (cap_for policy 3))
unfolding validate
delay_bounds_example =
    delay_bounds (λ n. 0) policy 3 (pos 250) (λ n h. h) refl (omega arith) (omega arith)
      (omega arith) refl

-- Both tasks get their turn.
claim_all-IsServed_example :
    IsServed options two_tasks
      (claim_all (count_tasks (qualifies options) two_tasks.tasks) options two_tasks)
unfolding validate_claim
claim_all-IsServed_example =
    claim_all-IsServed (count_tasks (qualifies options) two_tasks.tasks) options two_tasks
      two_tasks-IsKeyed refl (omega arith)
