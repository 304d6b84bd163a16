-- ===== src/Tests/Server.antt =====
-- A run of the server: a task is created, claimed and completed.
use Prim.Native.Nat.{ℕ}
use taskpulse.Prelude.{
  false, true, ◌≡◌, refl, pos, none, some, List, [], ◌∷◌, arith, lookup, trim_space, text_ltb,
  insert,
}
use taskpulse.Result.{ok}
use taskpulse.Task.{Task, running, succeeded, terminal_statuses, new_task, can_transition, move_to}
use taskpulse.Event.{new_task_event, new_task_claimed_event}
use taskpulse.Store.Select.{select}
use taskpulse.Store.Sorting.{sort}
use taskpulse.Store.Events.{record_event}
use taskpulse.Store.Tasks.{
  recoverable, available, lease_before, available_before, get, validate_claim, claim_next_locked,
  renew_lease, validate_renewal,
}
use taskpulse.Store.Transition.{claim_next_with_event, update_task_with_event}
use taskpulse.Store.Creation.{create_task_with_event, decode_json_value}
use taskpulse.Application.TaskService.{create_task, hand_in}
use taskpulse.Application.WorkerTasks.Tokens.{
  make_lease_token, with_lease_token, parse_lease_token, complete_payload, token_payload,
  validate_lease_token, resolve_lease_version, replay_worker_operation, prepare_running_task,
}
use taskpulse.Application.WorkerTasks.Operations.{
  claim_task, complete_task, complete_fresh, heartbeat_task, leased_task, get_leased, save,
}
use taskpulse.Store.Both.{Stores}
use taskpulse.Store.Effect.{Effect}
use taskpulse.System.{
  Operation, create, claim, heartbeat, complete, cancel, perform, empty_stores, Run, start, next,
}
use taskpulse.System.Invariant.{IsSound}
use taskpulse.System.Runs.{
  IsStillAsked, perform-Effect, reachable-IsSound, final_stays, request_stays, event_stays,
}
use taskpulse.System.Fencing.{IsSameClaim, accepted_token-IsSameClaim}
use taskpulse.System.Reaping.{IsKept, run-IsKept}
use taskpulse.Worker.Reaper.{Reaping, run}
use taskpulse.Store.Tasks.{exhausted}
use taskpulse.Tests.Fixtures.{plain_codec, waiting_task, creation_event}

abbrev creation : Operation
creation =
    create (record { idempotency_key = "k"; workflow = "resize"; input = ""; max_retries = pos 2 })
      (record { now = 10; task_id = "t1"; event_id = "e1" })

abbrev pub pickup : Operation
pickup = claim (record { worker_id = "w1"; workflow = "resize"; lease_duration = pos 30 }) 20 "e2"

abbrev completion : Operation
completion =
    complete
      (record {
        task_id = "t1";
        worker_id = "w1";
        lease_token = "t1;w1;1;";
        output = "42";
        result_ref = "";
      })
      (record { checked_at = 30; now = 31 }) "e3"

abbrev pub after_creation : Stores
after_creation = perform plain_codec none creation empty_stores

abbrev pub after_pickup : Stores
after_pickup = perform plain_codec none pickup after_creation

abbrev after_completion : Stores
after_completion = perform plain_codec none completion after_pickup

abbrev pub to_creation : Run plain_codec empty_stores after_creation
to_creation = next start none creation

abbrev to_completion : Run plain_codec empty_stores after_completion
to_completion = next (next to_creation none pickup) none completion

reachable-IsSound_example : IsSound after_completion
reachable-IsSound_example = reachable-IsSound plain_codec to_completion

perform-Effect_example : Effect after_pickup after_completion
perform-Effect_example =
    perform-Effect plain_codec none completion after_pickup
      (reachable-IsSound plain_codec (next to_creation none pickup))

abbrev done_task : Task
done_task = record waiting_task {
  status = succeeded;
  result = "42";
  progress = 100;
  version = 2;
  updated_at = 31;
  started_at = some 20;
  finished_at = some 31;
}

-- The parts of the server that the run goes through.
unfoldable pub the_run : ℕ
unfolding perform lookup insert trim_space text_ltb select sort record_event recoverable available
    lease_before available_before get validate_claim claim_next_locked claim_next_with_event
    update_task_with_event create_task_with_event decode_json_value new_task new_task_event
    new_task_claimed_event can_transition move_to create_task hand_in claim_task complete_task
    heartbeat_task renew_lease validate_renewal complete_fresh leased_task get_leased save
    make_lease_token with_lease_token parse_lease_token complete_payload token_payload
    validate_lease_token resolve_lease_version replay_worker_operation prepare_running_task
the_run = 0

completed : lookup "t1" after_completion.task_store.tasks ≡ some done_task
unfolding the_run
completed = refl

abbrev cancellation : Operation
cancellation = cancel "t1" "e4" 40

abbrev after_cancellation : Stores
after_cancellation = perform plain_codec none cancellation after_completion

-- A cancellation comes too late.
final_stays_example : lookup "t1" after_cancellation.task_store.tasks ≡ some done_task
unfolding terminal_statuses
final_stays_example =
    final_stays plain_codec (next start none cancellation)
      (reachable-IsSound plain_codec to_completion) "t1" done_task completed refl

created : lookup "t1" after_creation.task_store.tasks ≡ some waiting_task
unfolding the_run
created = refl

request_stays_example : IsStillAsked "t1" waiting_task after_completion
request_stays_example =
    request_stays plain_codec (next (next start none pickup) none completion)
      (reachable-IsSound plain_codec to_creation) "t1" waiting_task created

recorded : lookup "e1" after_creation.event_store.events_by_id ≡ some creation_event
unfolding the_run
recorded = refl

event_stays_example : lookup "e1" after_completion.event_store.events_by_id ≡ some creation_event
event_stays_example =
    event_stays plain_codec (next (next start none pickup) none completion)
      (reachable-IsSound plain_codec to_creation) "e1" creation_event recorded

abbrev pub beat : Operation
beat =
    heartbeat
      (record {
        task_id = "t1";
        worker_id = "w1";
        lease_token = "t1;w1;1;";
        lease_duration = pos 30;
      })
      40

abbrev pub after_beat : Stores
after_beat = perform plain_codec none beat after_pickup

abbrev pub picked_task : Task
picked_task = record waiting_task {
  status = running;
  version = 1;
  lease_owner = "w1";
  lease_expires_at = some 50;
  updated_at = 20;
  started_at = some 20;
}

-- After the heartbeat the token is good for longer.
accepted :
    leased_task plain_codec none "t1" "w1" "t1;w1;1;" 45 after_pickup
    ≡ (ok picked_task, after_pickup)
unfolding the_run
accepted = refl

abbrev renewed_task : Task
renewed_task = record picked_task {
  lease_expires_at = some 70;
  last_heartbeat_at = some 40;
  updated_at = 40;
}

accepted_again :
    leased_task plain_codec none "t1" "w1" "t1;w1;1;" 65 after_beat ≡ (ok renewed_task, after_beat)
unfolding the_run
accepted_again = refl

accepted_token-IsSameClaim_example : IsSameClaim picked_task renewed_task
accepted_token-IsSameClaim_example =
    accepted_token-IsSameClaim plain_codec (next start none beat)
      (reachable-IsSound plain_codec (next to_creation none pickup)) "t1" "w1" "t1;w1;1;" none none
      45 65 picked_task renewed_task after_pickup after_beat (omega arith) accepted accepted_again

picked : lookup "t1" after_pickup.task_store.tasks ≡ some picked_task
unfolding the_run
picked = refl

-- The reaper looks before and after the lease has run out; the task has retries left.
abbrev looks : List Reaping
looks =
    record { ctx = none; now = 45; event_id = "e3"; stopped = false }
    ∷ record { ctx = none; now = 55; event_id = "e4"; stopped = true }
    ∷ []

run-IsKept_example : IsKept "t1" picked_task (run (pos 5) looks after_pickup).1
unfolding exhausted
run-IsKept_example =
    run-IsKept "t1" picked_task (pos 5) looks after_pickup (refl, (refl, tt))
      (reachable-IsSound plain_codec (next to_creation none pickup)) picked
