-- ===== src/Store/Creation.antt =====
-- internal/store/task_creation_store.go: a task and its first event, created together and once for
-- each idempotency key.
pub mod Once
use taskpulse.Prelude.{
  ℕ, String, Bool, true, false, not, ◌&&◌, ◌||◌, Option, none, some, ◌==◌, is_empty, is_some,
  text_eq, if◌then◌else◌, lookup, insert,
}
use taskpulse.Result.{
  Error, Result, ok, err, Context, Exec, return, require, ◌>>=◌, ◌>>◌, fail_if, check, nil_task,
  nil_event, task_event_mismatch, idempotency_conflict, task_already_exists, event_already_exists,
}
use taskpulse.Task.{Task}
use taskpulse.Event.{TaskEvent, Json}
use taskpulse.Store.Tasks.{MemoryTaskStore, idempotency_index_key, index_key}
use taskpulse.Store.Events.{record_event}
use taskpulse.Store.Both.{Stores, event_exists, add_event}

pub record TaskCreationResult : Type 0 where
  pub task : Task
  pub created : Bool

-- The id that the index has for the request, if the request has a key.
abbrev pub indexed_id : Task → Stores → Option String
indexed_id t s =
    if is_empty t.idempotency_key
    then none
    else lookup (idempotency_index_key t.workflow t.idempotency_key)
        s.task_store.task_ids_by_idempotency_key

module _ (json : Json) where
  open json use {Value, decode, at_eof, deep_equal}

  only_value : Option (Value × String) → Option Value
  only_value none = none
  only_value (some (value, rest)) = if at_eof rest then some value else none

  -- `none` is an error.
  unfoldable pub decode_json_value : String → Option Value
  unfolding only_value
  decode_json_value raw = only_value (decode raw)

  abbrev same_values : Option Value → Option Value → String → String → Bool
  same_values none right left_raw right_raw = text_eq left_raw right_raw
  same_values (some left) none left_raw right_raw = false
  same_values (some left) (some right) left_raw right_raw = deep_equal left right

  unfoldable pub same_task_creation_request : Option Task → Option Task → Bool
  unfolding decode_json_value
  same_task_creation_request none right = false
  same_task_creation_request (some left) none = false
  same_task_creation_request (some left) (some right) =
      if not (text_eq left.idempotency_key right.idempotency_key)
        || (not (text_eq left.workflow right.workflow)
            || not (left.max_retries == right.max_retries))
      then false
      else same_values (decode_json_value left.input) (decode_json_value right.input) left.input
          right.input

  -- The task that is already stored for the request's key. A dangling index entry reads as nil.
  replay : Task → Option Task → Exec Stores TaskCreationResult
  unfolding same_task_creation_request
  replay t none s = (err idempotency_conflict, s)
  replay t (some existing) s =
      if not (same_task_creation_request (some existing) (some t))
      then (err idempotency_conflict, s)
      else (ok (record { task = existing; created = false }), s)

  create_new : Task → TaskEvent → Exec Stores TaskCreationResult
  create_new t e s =
      (do
        fail_if (is_some (lookup t.id s.task_store.tasks)) task_already_exists
        fail_if (event_exists e.id s) event_already_exists
        λ s. (
          ok (record { task = t; created = true }),
          record {
            task_store = record {
              tasks = insert t.id t s.task_store.tasks;
              task_ids_by_idempotency_key = index_key t s.task_store.task_ids_by_idempotency_key;
            };
            event_store = record_event e s.event_store;
          },
        ))
        s

  replay_or_create : Task → TaskEvent → Option String → Exec Stores TaskCreationResult
  unfolding replay create_new
  replay_or_create t e none s = create_new t e s
  replay_or_create t e (some id) s = replay t (lookup id s.task_store.tasks) s

  unfoldable pub create_task_with_event :
      Context → Option Task → Option TaskEvent → Exec Stores TaskCreationResult
  unfolding replay_or_create
  create_task_with_event ctx task event s =
      (do
        check ctx
        t ← require task nil_task
        e ← require event nil_event
        fail_if (not (text_eq e.task_id t.id)) task_event_mismatch
        replay_or_create t e (indexed_id t s))
        s
