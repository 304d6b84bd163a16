-- ===== src/System/Runs.antt =====
-- What holds of every run of the server's operations.
use taskpulse.Prelude.{ℕ, String, ◌≡◌, refl, ap, ◌∙◌, subst, true, none, some, lookup}
use taskpulse.Result.{Context}
use taskpulse.Task.{Task, terminal_statuses}
use taskpulse.Event.{TaskEvent}
use taskpulse.Store.Both.{Stores}
use taskpulse.Store.Effect.{Effect}
use taskpulse.Store.Transition.Atomic.{fail_next_expired_with_event-Effect}
use taskpulse.Application.Codec.{Codec}
use taskpulse.Application.TaskService.Effects.{create_task-Effect, cancel_task-Effect}
use taskpulse.Application.WorkerTasks.Operations.{RetryScheduling, IsScheduling}
use taskpulse.Application.WorkerTasks.Operations.Effects.{
  claim_task-Effect, heartbeat_task-Effect, complete_task-Effect, report_progress-Effect,
  fail_task-Effect, release_task-Effect,
}
use taskpulse.Application.WorkerTasks.Scheduled.{external_schedule-IsScheduling}
use taskpulse.System.{
  Operation, create, claim, heartbeat, complete, progress, fail, release, cancel, reap,
  retry_scheduling, perform, empty_stores, Run, start, next,
}
use taskpulse.System.Invariant.{IsSound, Effect-IsSound}
use taskpulse.System.History.{
  IsSuccessor, kept, stepped, beaten, final_follows, Effect-IsFollowed, Effect-recorded,
}

the_scheduler :
    (codec : Codec) (ctx : Context) (int63n : ℕ → ℕ) (now : ℕ) (id : String) (f : RetryScheduling)
    → some (retry_scheduling codec int63n ctx now id) ≡ some f
    → IsScheduling f
the_scheduler codec ctx int63n now id f e =
    subst (λ o. (elim o [ none ↦ Unit | some g ↦ IsScheduling g ])) e
      (external_schedule-IsScheduling codec.json int63n ctx now id)

-- In sound stores every operation of the server, whatever it is asked and whether it answers or
-- fails, does one of four things: it changes nothing; it writes one legal step of a live task under
-- the next version, together with one new event of that task; it renews the lease of a running
-- task; or it adds one new queued task with its first event.
pub perform-Effect :
    (codec : Codec) (ctx : Context) (o : Operation) (s : Stores)
    → IsSound s
    → Effect s (perform codec ctx o s)
unfolding perform
perform-Effect codec ctx (create i fresh) s h = create_task-Effect codec.json ctx s i fresh
perform-Effect codec ctx (claim i now event_id) s h =
    claim_task-Effect codec ctx s h.keyed i now event_id
perform-Effect codec ctx (heartbeat i now) s h = heartbeat_task-Effect codec ctx s h.keyed i now
perform-Effect codec ctx (complete i clock event_id) s h =
    complete_task-Effect codec ctx s h.keyed i clock event_id
perform-Effect codec ctx (progress i clock event_id) s h =
    report_progress-Effect codec ctx s h.keyed i clock event_id
perform-Effect codec ctx (fail int63n i clock event_id at retry_id) s h =
    fail_task-Effect codec ctx s h.keyed (some (retry_scheduling codec int63n ctx at retry_id)) i
      clock event_id (the_scheduler codec ctx int63n at retry_id)
perform-Effect codec ctx (release i clock event_id) s h =
    release_task-Effect codec ctx s h.keyed i clock event_id
perform-Effect codec ctx (cancel id event_id now) s h =
    cancel_task-Effect codec.json ctx s id event_id now h.keyed
perform-Effect codec ctx (reap now event_id) s h =
    fail_next_expired_with_event-Effect ctx now event_id s h.keyed

-- Every run of operations keeps sound stores sound.
pub run-IsSound : (codec : Codec) {s s' : Stores} → Run codec s s' → IsSound s → IsSound s'
run-IsSound codec start h = h
run-IsSound codec (next {s' = s'} r ctx o) h =
    let before = run-IsSound codec r h in
    Effect-IsSound (perform-Effect codec ctx o s' before) before

pub empty-IsSound : IsSound empty_stores
unfolding lookup
empty-IsSound = record {
  keyed = record { distinct = tt; keyed = λ k t found. cc };
  well_formed = λ k t found. cc;
  indexed = λ key id found. cc;
  recorded = λ k e found. cc;
}

-- Whatever operations run on the empty stores, in any order and with any requests: each task stands
-- under its own id and is well formed, each idempotency key leads to a stored task, and each event
-- stands under its own id and belongs to a stored task.
pub reachable-IsSound : (codec : Codec) {s : Stores} → Run codec empty_stores s → IsSound s
reachable-IsSound codec r = run-IsSound codec r empty-IsSound

-- A stored task in a final status stays exactly as it is, whatever operations run afterwards: late
-- completions, failures, releases, heartbeats, cancellations and cleanups do not change it.
pub final_stays :
    (codec : Codec) {s s' : Stores}
    → Run codec s s'
    → IsSound s
    → (k : String) (p : Task) → lookup k s.task_store.tasks ≡ some p
    → terminal_statuses p.status ≡ true
    → lookup k s'.task_store.tasks ≡ some p
final_stays codec start h k p found final = found
final_stays codec {s = s} (next {s' = s'} r ctx o) h k p found final =
    let before = final_stays codec r h k p found final in
    let f = Effect-IsFollowed (perform-Effect codec ctx o s' (run-IsSound codec r h)) k p before in
    f.stored ∙ ap some (final_follows p f.now final f.follows)

-- The task was asked for in the same way.
pub record IsSameRequest (p t : Task) : Type 0 where
  pub same_id : t.id ≡ p.id
  pub same_key : t.idempotency_key ≡ p.idempotency_key
  pub same_workflow : t.workflow ≡ p.workflow
  pub same_input : t.input ≡ p.input
  pub same_budget : t.max_retries ≡ p.max_retries
  pub same_creation : t.created_at ≡ p.created_at

abbrev pub IsStillAsked : String → Task → Stores → Type 0
IsStillAsked k p s = (t : Task) × (lookup k s.task_store.tasks ≡ some t) × IsSameRequest p t

pub successor-IsSameRequest :
    (p t u : Task) → IsSameRequest p t → IsSuccessor t u → IsSameRequest p u
successor-IsSameRequest p t u r kept = r
successor-IsSameRequest p t u r (stepped v legal) = record {
  same_id = legal.same_id ∙ r.same_id;
  same_key = legal.same_key ∙ r.same_key;
  same_workflow = legal.same_workflow ∙ r.same_workflow;
  same_input = legal.same_input ∙ r.same_input;
  same_budget = legal.same_budget ∙ r.same_budget;
  same_creation = legal.same_creation ∙ r.same_creation;
}
successor-IsSameRequest p t u r (beaten until now running) = record {
  same_id = r.same_id;
  same_key = r.same_key;
  same_workflow = r.same_workflow;
  same_input = r.same_input;
  same_budget = r.same_budget;
  same_creation = r.same_creation;
}

-- A stored task is never removed, and its id, idempotency key, workflow, input, retry budget and
-- creation time stay as they are, whatever operations run.
pub request_stays :
    (codec : Codec) {s s' : Stores}
    → Run codec s s'
    → IsSound s
    → (k : String) (p : Task) → lookup k s.task_store.tasks ≡ some p
    → IsStillAsked k p s'
request_stays codec start h k p found = (
  p,
  found,
  record {
    same_id = refl;
    same_key = refl;
    same_workflow = refl;
    same_input = refl;
    same_budget = refl;
    same_creation = refl;
  },
)
request_stays codec (next {s' = s'} r ctx o) h k p found =
    let (t, there, alike) = request_stays codec r h k p found in
    let f = Effect-IsFollowed (perform-Effect codec ctx o s' (run-IsSound codec r h)) k t there in
    (f.now, f.stored, successor-IsSameRequest p t f.now alike f.follows)

-- A recorded event is never removed or changed, whatever operations run.
pub event_stays :
    (codec : Codec) {s s' : Stores}
    → Run codec s s'
    → IsSound s
    → (k : String) (e : TaskEvent) → lookup k s.event_store.events_by_id ≡ some e
    → lookup k s'.event_store.events_by_id ≡ some e
event_stays codec start h k e found = found
event_stays codec (next {s' = s'} r ctx o) h k e found =
    Effect-recorded (perform-Effect codec ctx o s' (run-IsSound codec r h)) k e
      (event_stays codec r h k e found)
