-- ===== src/Application/TaskLists.antt =====
-- internal/application/task_service.go: `ListTasks` and its cursors. The store is the in-memory one,
-- which is a `TaskQueryStore`.
pub mod Cursors
pub mod Reading
use taskpulse.Prelude.{
  ℕ, zero, ◌+◌, String, Bool, true, false, not, ◌&&◌, ◌||◌, Option, none, some, List, [], ◌∷◌, ℤ,
  pos, is_nonpos, magnitude, ltb, ◌==◌, is_empty, text_eq, trim_space, if◌then◌else◌, length, take,
}
use taskpulse.Result.{Error, Result, ok, err, Context, Exec, return, lift, ◌>>=◌, invalid_input}
use taskpulse.Event.{text, time}
use taskpulse.Store.Both.{Stores, on_tasks}
use taskpulse.Store.Sorting.Cuts.{last}
use taskpulse.Store.Query.{ListTasksOptions, TaskListItem, validate, list_tasks as stored_tasks}
use taskpulse.Application.Codec.{Codec, TaskListCursor}
use taskpulse.Application.WorkerTasks.Tokens.{or_nothing}

pub record ListTasksInput : Type 0 where
  pub workflow : String
  pub status : String
  pub cursor : String
  pub limit : ℤ

pub record ListTasksResult : Type 0 where
  pub items : List TaskListItem
  pub next_cursor : String
  pub has_more : Bool

-- `if input.Limit == 0 { input.Limit = 50 }`
abbrev pub limit_of : ℤ → ℤ
limit_of (pos zero) = pos 50
limit_of n = n

-- A cursor without an id or a time is incomplete.
abbrev complete_cursor : TaskListCursor → Option TaskListCursor
complete_cursor c = if is_empty c.id || c.created_at == 0 then none else some c

abbrev pub last_item : List TaskListItem → Option TaskListItem
last_item [] = none
last_item (x ∷ xs) = some (last x xs)

abbrev pub with_cursor : Option TaskListCursor → ListTasksOptions → Result ListTasksOptions
with_cursor none o = err (invalid_input "invalid cursor")
with_cursor (some c) o = ok (record o { before_created_at = some c.created_at; before_id = c.id })

-- `if err := options.Validate(); err != nil`
abbrev pub validated : Result ListTasksOptions → Result ListTasksOptions
validated (err e) = err e
validated (ok o) = elim (validate o) [
  | err e ↦ err (invalid_input "invalid task query")
  | ok u ↦ ok o
]

abbrev pub base_query : ListTasksInput → ListTasksOptions
base_query i = record {
  workflow = i.workflow;
  status = i.status;
  before_created_at = none;
  before_id = "";
  limit = pos (magnitude (limit_of i.limit) + 1);
}

module _ (codec : Codec) where
  open codec use {json, encode_base64, decode_base64, unmarshal_cursor}

  unfoldable pub encode_task_list_cursor : TaskListCursor → String
  encode_task_list_cursor c =
      encode_base64
        (or_nothing (json.marshal (("created_at", time c.created_at) ∷ ("id", text c.id) ∷ [])))

  unfoldable pub decode_task_list_cursor : String → Option TaskListCursor
  decode_task_list_cursor raw = elim (decode_base64 raw) [
    | none ↦ none
    | some decoded ↦ elim (unmarshal_cursor decoded) [ none ↦ none | some c ↦ complete_cursor c ]
  ]

  -- The query with the cursor of the request, if it has one.
  unfoldable pub at_cursor : ListTasksInput → Result ListTasksOptions
  unfolding decode_task_list_cursor
  at_cursor i =
      if is_empty i.cursor
      then ok (base_query i)
      else with_cursor (decode_task_list_cursor i.cursor) (base_query i)

  -- The query that a request asks of the store.
  unfoldable pub query_of : ListTasksInput → Result ListTasksOptions
  unfolding at_cursor
  query_of i =
      if not (text_eq (trim_space i.workflow) i.workflow)
      then err (invalid_input "workflow cannot have surrounding whitespace")
      else if is_nonpos (limit_of i.limit) || ltb 100 (magnitude (limit_of i.limit))
      then err (invalid_input "limit must be between 1 and 100")
      else validated (at_cursor i)

  -- The limit is at least 1, so a page with more behind it has a last task.
  next_cursor_of : Option TaskListItem → String
  unfolding encode_task_list_cursor
  next_cursor_of none = ""
  next_cursor_of (some x) =
      encode_task_list_cursor (record { created_at = x.created_at; id = x.id })

  unfoldable pub page_of : ℕ → List TaskListItem → ListTasksResult
  unfolding next_cursor_of
  page_of limit items =
      if ltb limit (length items)
      then record {
        items = take limit items;
        next_cursor = next_cursor_of (last_item (take limit items));
        has_more = true;
      }
      else record { items = items; next_cursor = ""; has_more = false }

  unfoldable pub list_tasks : Context → ListTasksInput → Exec Stores ListTasksResult
  unfolding query_of page_of stored_tasks
  list_tasks ctx i = do
    o ← lift (query_of i)
    items ← on_tasks (stored_tasks ctx o)
    return (page_of (magnitude (limit_of i.limit)) items)
