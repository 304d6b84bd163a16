-- ===== src/Tests/Fixtures.antt =====
-- A codec that runs, and stores with a task, for the tests.
use Prim.Native.Nat.{ℕ, zero, suc, ◌+◌}
use Prim.Native.Char.{code}
use Prim.Native.String.{String}
use mathlib.Core.Option.{none, some}
use mathlib.Core.List.{[], ◌∷◌}
use taskpulse.Prelude.{
  ◌≡◌, refl, arith, text_eq, text_eq_iff, text_append, is_empty, if◌then◌else◌, ◌==◌, lookup,
}
use taskpulse.Event.{
  Json, Field, text, number, flag, time, time_or_omitted, Fields, TaskEvent, task_created,
}
use taskpulse.Task.{Task, queued, running}
use taskpulse.Store.Tasks.{MemoryTaskStore}
use taskpulse.Store.Tasks.Claiming.{IsKeyed}
use taskpulse.Store.Both.{Stores}
use taskpulse.Application.Codec.{Codec}

abbrev strokes : ℕ → String
strokes zero = ""
strokes (suc n) = text_append "1" (strokes n)

-- Each field is its value with a semicolon behind it, numbers in strokes.
abbrev field_text : Field → String
field_text (text s) = s
field_text (number n) = strokes n
field_text (flag b) = if b then "yes" else "no"
field_text (time t) = strokes t
field_text (time_or_omitted none) = ""
field_text (time_or_omitted (some t)) = strokes t

abbrev fields_text : Fields → String
fields_text [] = ""
fields_text ((name, f) ∷ fs) = text_append (field_text f) (text_append ";" (fields_text fs))

abbrev before_semicolon : String → String
before_semicolon String.[] = ""
before_semicolon (String.◌∷◌ c s) =
    let rest = before_semicolon s in if code c == 59 then "" else String.◌∷◌ c rest

abbrev after_semicolon : String → String
after_semicolon String.[] = ""
after_semicolon (String.◌∷◌ c s) = let rest = after_semicolon s in if code c == 59 then s else rest

abbrev count_strokes : String → ℕ
count_strokes String.[] = 0
count_strokes (String.◌∷◌ c s) = count_strokes s + 1

abbrev pub plain_json : Json
plain_json = record {
  Value = String;
  marshal = λ fs. some (fields_text fs);
  decode = λ s. some (s, "");
  at_eof = is_empty;
  deep_equal = text_eq;
  unmarshal = λ s. some s;
  marshal_value = λ s. some s;
}

abbrev pub plain_codec : Codec
plain_codec = record {
  json = plain_json;
  encode_base64 = λ s. s;
  decode_base64 = λ s. some s;
  unmarshal_lease_token = λ s. some (record {
    task_id = before_semicolon s;
    worker_id = before_semicolon (after_semicolon s);
    version = count_strokes (before_semicolon (after_semicolon (after_semicolon s)));
  });
  unmarshal_cursor = λ s. some (record {
    created_at = count_strokes (before_semicolon s);
    id = before_semicolon (after_semicolon s);
  });
}

-- A task that was created at time 10 and waits.
abbrev pub waiting_task : Task
waiting_task = record {
  id = "t1";
  idempotency_key = "k";
  workflow = "resize";
  status = queued;
  input = "{}";
  result = "";
  error_message = "";
  progress = 0;
  retry_count = 0;
  max_retries = 2;
  available_at = 10;
  version = 0;
  lease_owner = "";
  lease_expires_at = none;
  last_heartbeat_at = none;
  lease_token = "";
  task_id = "";
  lease_until = none;
  created_at = 10;
  updated_at = 10;
  started_at = none;
  finished_at = none;
}

abbrev pub creation_event : TaskEvent
creation_event = record {
  id = "e1";
  task_id = "t1";
  type = task_created;
  message = "task created";
  payload = "{}";
  progress = 0;
  created_at = 10;
}

abbrev pub one_task : Stores
one_task = record {
  task_store = record {
    tasks = ("t1", waiting_task) ∷ [];
    task_ids_by_idempotency_key = ("resize\0k", "t1") ∷ [];
  };
  event_store = record {
    events_by_id = ("e1", creation_event) ∷ [];
    events_by_task_id = ("t1", creation_event ∷ []) ∷ [];
  };
}

abbrev pub other_task : Task
other_task = record waiting_task { id = "t2"; idempotency_key = ""; created_at = 5 }

-- The same two tasks, as `range` may meet them.
abbrev pub two_tasks : MemoryTaskStore
two_tasks = record {
  tasks = ("t1", waiting_task) ∷ ("t2", other_task) ∷ [];
  task_ids_by_idempotency_key = [];
}

abbrev pub two_tasks_turned : MemoryTaskStore
two_tasks_turned = record {
  tasks = ("t2", other_task) ∷ ("t1", waiting_task) ∷ [];
  task_ids_by_idempotency_key = [];
}

-- The task of `one_task` while a worker runs it, and after its last try has run out.
abbrev pub running_task : Task
running_task = record waiting_task {
  status = running;
  version = 1;
  lease_owner = "w1";
  lease_expires_at = some 50;
  updated_at = 20;
  started_at = some 20;
}

abbrev pub spent_task : Task
spent_task = record running_task { retry_count = 2 }

abbrev pub holding : Task → Stores
holding t = record one_task { task_store = record one_task.task_store { tasks = ("t1", t) ∷ [] } }

pub holding-IsKeyed : (t : Task) → t.id ≡ "t1" → IsKeyed (holding t).task_store.tasks
unfolding lookup
holding-IsKeyed t own = record {
  distinct = (refl, tt);
  keyed = λ k u found. ground (arith, text_eq_iff "t1" k);
}
