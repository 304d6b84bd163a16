-- ===== src/Store/Creation/Once.antt =====
-- What `CreateTaskWithEvent` of internal/store/task_creation_store.go promises: one task for each
-- idempotency key.
use taskpulse.Prelude.{
  String, ◌≡◌, refl, ◌⊎◌, inl, inr, Bool, true, false, none, some, arith, is_empty, lookup,
  lookup-insert_self, text_eq_iff,
}
use taskpulse.Result.{Error, Result, ok, err, Context, Exec-cases}
use taskpulse.Task.{Task, is_queued}
use taskpulse.Task.WellFormed.{IsWellFormed}
use taskpulse.Event.{TaskEvent, Json}
use taskpulse.Store.Tasks.{idempotency_index_key}
use taskpulse.Store.Both.{Stores}
use taskpulse.Store.Effect.{Effect, idle, add, added, IsNewEvent}
use taskpulse.Store.Creation.{
  TaskCreationResult, create_task_with_event, same_task_creation_request, indexed_id,
}

module _ (json : Json) (ctx : Context) (t : Task) (e : TaskEvent) (s s' : Stores) where
  create_refused :
      (x : Error) → create_task_with_event json ctx (some t) (some e) s ≡ (err x, s') → s' ≡ s
  unfolding create_task_with_event
  create_refused x h = ground arith

  record IsCreation : Type 0 where
    no_key : indexed_id t s ≡ none
    new_task : lookup t.id s.task_store.tasks ≡ none
    new_event : IsNewEvent e s
    own : e.task_id ≡ t.id
    made : s' ≡ added t e s

  create_made :
      (u : Task)
      → create_task_with_event json ctx (some t) (some e) s
        ≡ (ok (record { task = u; created = true }), s')
      → IsCreation × (u ≡ t)
  unfolding create_task_with_event
  create_made u h = (ground (arith, text_eq_iff e.task_id t.id), ground arith)

  create_replayed :
      (u : Task)
      → create_task_with_event json ctx (some t) (some e) s
        ≡ (ok (record { task = u; created = false }), s')
      → (s' ≡ s)
        × ((id : String) × (indexed_id t s ≡ some id) × (lookup id s.task_store.tasks ≡ some u))
        × (same_task_creation_request json (some u) (some t) ≡ true)
  unfolding create_task_with_event
  create_replayed u h = (ground arith, ground arith, ground arith)

-- An answer to a request for `t` with the event `e`, and the stores after it.
abbrev pub IsCreateOutcome :
    Json → Task → TaskEvent → Stores → Result TaskCreationResult × Stores → Type 0
IsCreateOutcome json t e s (err x, s') = s' ≡ s
IsCreateOutcome json t e s (ok r, s') =
    ((r.created ≡ true)
      × (r.task ≡ t)
      × (indexed_id t s ≡ none)
      × (lookup t.id s.task_store.tasks ≡ none)
      × IsNewEvent e s
      × (e.task_id ≡ t.id)
      × (s' ≡ added t e s))
    ⊎ ((r.created ≡ false)
        × (s' ≡ s)
        × ((id : String) × (indexed_id t s ≡ some id)
            × (lookup id s.task_store.tasks ≡ some r.task))
        × (same_task_creation_request json (some r.task) (some t) ≡ true))

answer_of :
    (json : Json) (ctx : Context) (t : Task) (e : TaskEvent) (s s' : Stores) (u : Task) (b : Bool)
    → create_task_with_event json ctx (some t) (some e) s
      ≡ (ok (record { task = u; created = b }), s')
    → IsCreateOutcome json t e s (ok (record { task = u; created = b }), s')
answer_of json ctx t e s s' u true h =
    let (c, same) = create_made json ctx t e s s' u h in
    inl (refl, same, c.no_key, c.new_task, c.new_event, c.own, c.made)
answer_of json ctx t e s s' u false h =
    let (same, there, alike) = create_replayed json ctx t e s s' u h in
    inr (refl, same, there, alike)

-- A request to create a task either fails and changes nothing; or it adds the task, of a new id and
-- an idempotency key that is not in use, with its new event; or its key is in use by a stored task
-- of the same request, which is returned, and nothing changes.
pub create-IsCreateOutcome :
    (json : Json) (ctx : Context) (t : Task) (e : TaskEvent) (s : Stores)
    → IsCreateOutcome json t e s (create_task_with_event json ctx (some t) (some e) s)
create-IsCreateOutcome json ctx t e s =
    elim (Exec-cases (create_task_with_event json ctx (some t) (some e) s)) [
      | inl (r, s', h) ↦ rw h (answer_of json ctx t e s s' r.task r.created h)
      | inr (x, s', h) ↦ rw h (create_refused json ctx t e s s' x h)
    ]

outcome-Effect :
    (json : Json) (t : Task) (e : TaskEvent) (s : Stores)
    → (out : Result TaskCreationResult × Stores) → is_queued t.status ≡ true
    → IsWellFormed t
    → IsCreateOutcome json t e s out
    → Effect s out.1
outcome-Effect json t e s (err x, s') queued sound same = idle same
outcome-Effect json t e s (ok r, s') queued sound
      (inl (created, same, no_key, new_task, new_event, own, made)) =
    add t e new_task queued sound own new_event made
outcome-Effect json t e s (ok r, s') queued sound (inr (before, same, found, alike)) = idle same

pub create-Effect :
    (json : Json) (ctx : Context) (t : Task) (e : TaskEvent) (s : Stores)
    → is_queued t.status ≡ true
    → IsWellFormed t
    → Effect s (create_task_with_event json ctx (some t) (some e) s).1
create-Effect json ctx t e s queued sound =
    outcome-Effect json t e s _ queued sound (create-IsCreateOutcome json ctx t e s)

-- A request whose key is in use by a task that asks for the same.
replays :
    (json : Json) (u : Task) (f : TaskEvent) (s : Stores) (id : String) (t : Task)
    → f.task_id ≡ u.id
    → indexed_id u s ≡ some id
    → lookup id s.task_store.tasks ≡ some t
    → same_task_creation_request json (some t) (some u) ≡ true
    → create_task_with_event json none (some u) (some f) s
      ≡ (ok (record { task = t; created = false }), s)
unfolding create_task_with_event
replays json u f s id t own indexed found alike = ground (arith, text_eq_iff f.task_id u.id)

-- The key of the new task leads to it.
indexed-added :
    (t u : Task) (e : TaskEvent) (s : Stores)
    → is_empty t.idempotency_key ≡ false
    → u.idempotency_key ≡ t.idempotency_key
    → u.workflow ≡ t.workflow
    → indexed_id u (added t e s) ≡ some t.id
indexed-added t u e s keyed key workflow = ground (
  arith,
  lookup-insert_self (idempotency_index_key t.workflow t.idempotency_key) t.id
      s.task_store.task_ids_by_idempotency_key,
)

-- After a task with an idempotency key is created, a request with the same key and workflow, which
-- asks for the same, gets that task back whatever its own id and event are, and changes nothing.
pub create_again :
    (json : Json) (t u : Task) (e f : TaskEvent) (s s' : Stores)
    → is_empty t.idempotency_key ≡ false
    → create_task_with_event json none (some t) (some e) s
      ≡ (ok (record { task = t; created = true }), s')
    → u.idempotency_key ≡ t.idempotency_key
    → u.workflow ≡ t.workflow
    → f.task_id ≡ u.id
    → same_task_creation_request json (some t) (some u) ≡ true
    → create_task_with_event json none (some u) (some f) s'
      ≡ (ok (record { task = t; created = false }), s')
create_again json t u e f s s' keyed h key workflow own alike =
    let made = (create_made json none t e s s' t h).0.made in
    rw made (
      replays json u f (added t e s) t.id t own (indexed-added t u e s keyed key workflow)
        (lookup-insert_self t.id t s.task_store.tasks) alike)
