-- ===== src/Http/TaskHandlers.antt =====
-- internal/transport/http/handler.go: the handlers of tasks. A reading of the clock, a new id and the
-- context of a call are arguments.
use taskpulse.Prelude.{ℕ, String, Option, none, some, ℤ, pos, is_empty, if◌then◌else◌}
use taskpulse.Result.{Result, ok, err, Context}
use taskpulse.Task.{Task}
use taskpulse.Store.Both.{Stores}
use taskpulse.Application.Codec.{Codec}
use taskpulse.Application.TaskService.{
  CreateTaskInput, CreateTaskResult, Fresh, create_task as service_create_task,
  cancel_task as service_cancel_task, list_task_events as service_list_task_events,
}
use taskpulse.Application.TaskLists.{ListTasksInput, list_tasks as service_list_tasks}
use taskpulse.Application.TaskStats.{get_task_stats as service_get_task_stats}
use taskpulse.Application.TaskDetail.{DetailCodec, get_task_detail}
use taskpulse.Http.{
  Request, task, detail, page, stats, events, Response, write_json, write_error,
  write_application_error, respond,
}
use taskpulse.Http.Decoding.{CreateTaskRequest, Decoders, decode_json}

-- The answer, and the stores after it.
abbrev pub Handling : Type 0 → Type 0
Handling Seconds = Stores → Response Seconds × Stores

abbrev pub bad_body : {Seconds : Type 0} → Response Seconds
bad_body = write_error 400 "invalid request body"

-- `if err := decodeJSON(…); err != nil`
abbrev pub with_body :
    {Seconds S A : Type 0} → Option A → (A → S → Response Seconds × S) → S → Response Seconds × S
with_body none k s = (bad_body, s)
with_body (some a) k s = k a s

abbrev pub create_input : Request → CreateTaskRequest → CreateTaskInput
create_input r q = record {
  idempotency_key = r.header "Idempotency-Key";
  workflow = q.workflow;
  input = q.input;
  max_retries = q.max_retries;
}

abbrev pub list_input : Request → ℤ → ListTasksInput
list_input r limit = record {
  workflow = r.query "workflow";
  status = r.query "status";
  cursor = r.query "cursor";
  limit = limit;
}

-- The details are read after a cancellation that is made.
abbrev pub after_cancel :
    {Seconds : Type 0} → Handling Seconds → Result Task × Stores → Response Seconds × Stores
after_cancel read (ok t, s) = read s
after_cancel read (err e, s) = (write_application_error e, s)

module _ {Seconds : Type 0} (codec : Codec) (decoders : Decoders) (ctx : Context)
    (r : Request) where
  open decoders use {create, at_end, atoi}

  abbrev pub created_response : CreateTaskResult → Response Seconds
  created_response out = write_json (if out.created then 201 else 200) (task out.task)

  unfoldable pub create_task : Fresh → Handling Seconds
  unfolding decode_json
  create_task fresh = with_body (decode_json at_end create r.body) (λ q s.
      respond created_response (service_create_task codec.json ctx (create_input r q) fresh s))

  abbrev pub list_limited : Option ℤ → Handling Seconds
  list_limited none s = (write_error 400 "invalid limit", s)
  list_limited (some limit) s =
      respond (λ p. write_json 200 (page p)) (service_list_tasks codec ctx (list_input r limit) s)

  unfoldable pub list_tasks : Handling Seconds
  list_tasks =
      list_limited (if is_empty (r.query "limit") then some (pos 50) else atoi (r.query "limit"))

  -- `clock` and `now` are readings of the clock.
  unfoldable pub get_task_stats : (ℕ → Seconds) → ℕ → ℕ → Handling Seconds
  get_task_stats seconds clock now s =
      respond (λ o. write_json 200 (stats o))
        (service_get_task_stats seconds ctx clock now
          (record { workflow = r.query "workflow"; status = r.query "status" }) s)

  unfoldable pub list_task_events : Handling Seconds
  list_task_events s =
      respond (λ es. write_json 200 (events es)) (service_list_task_events ctx r.task_id s)

module _ {Seconds : Type 0} (details : DetailCodec) where
  unfoldable pub get_task : Context → Request → ℕ → Handling Seconds
  get_task ctx r now s =
      respond (λ d. write_json 200 (detail d)) (get_task_detail details ctx r.task_id now s)

  -- The details are read under the context as it then is.
  unfoldable pub cancel_task : Context → Context → Request → String → ℕ → ℕ → Handling Seconds
  unfolding get_task
  cancel_task ctx later r event_id now read_at s =
      after_cancel (get_task later r read_at) (service_cancel_task ctx r.task_id event_id now s)
