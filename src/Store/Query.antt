-- ===== src/Store/Query.antt =====
-- internal/store/task_query_store.go: lists of tasks, newest first, from a cursor on.
-- A status in a request is a text, which need not be a constant.
pub mod Listing
pub mod Pages
use taskpulse.Prelude.{
  ℕ, String, Bool, true, false, not, ◌&&◌, ◌||◌, Option, none, some, List, [], ◌∷◌, ℤ, is_nonpos,
  magnitude, ltb, ◌==◌, is_empty, is_some, text_eq, text_ltb, if◌then◌else◌, Assoc, length, take,
}
use taskpulse.Result.{
  Error, Result, ok, err, Context, Exec, return, lift, ◌>>=◌, ◌>>◌, check, invalid_task_query,
}
use taskpulse.Task.{Task, TaskStatus, status_text}
use taskpulse.Store.Sorting.{sort}
use taskpulse.Store.Tasks.{MemoryTaskStore, other_workflow}

pub record ListTasksOptions : Type 0 where
  pub workflow : String
  pub status : String
  pub before_created_at : Option ℕ
  pub before_id : String
  pub limit : ℤ

abbrev pub is_known_task_status : String → Bool
is_known_task_status s =
    text_eq s "queued"
    || text_eq s "running"
    || text_eq s "succeeded"
    || text_eq s "partially_succeeded"
    || text_eq s "failed"
    || text_eq s "canceled"
    || text_eq s "retrying"

-- `status != "" && !isKnownTaskStatus(status)`
abbrev pub unknown_status : String → Bool
unknown_status s = not (is_empty s) && not (is_known_task_status s)

-- `(o.BeforeCreatedAt == nil) != (o.BeforeID == "")`
abbrev half_cursor : ListTasksOptions → Bool
half_cursor o =
    if is_some o.before_created_at then is_empty o.before_id else not (is_empty o.before_id)

unfoldable pub validate : ListTasksOptions → Result (Unit {0})
validate o =
    if is_nonpos o.limit || ltb 101 (magnitude o.limit)
    then err invalid_task_query
    else if unknown_status o.status
    then err invalid_task_query
    else if half_cursor o
    then err invalid_task_query
    else ok tt

pub record TaskListItem : Type 0 where
  pub id : String
  pub workflow : String
  pub status : TaskStatus
  pub error_message : String
  pub progress : ℕ
  pub retry_count : ℕ
  pub max_retries : ℕ
  pub lease_owner : String
  pub lease_expires_at : Option ℕ
  pub created_at : ℕ
  pub updated_at : ℕ

abbrev pub new_task_list_item : Task → TaskListItem
new_task_list_item t = record {
  id = t.id;
  workflow = t.workflow;
  status = t.status;
  error_message = t.error_message;
  progress = t.progress;
  retry_count = t.retry_count;
  max_retries = t.max_retries;
  lease_owner = t.lease_owner;
  lease_expires_at = t.lease_expires_at;
  created_at = t.created_at;
  updated_at = t.updated_at;
}

-- `status != "" && task.Status != status`
abbrev pub other_status : String → Task → Bool
other_status status t = not (is_empty status) && not (text_eq (status_text t.status) status)

abbrev before_cursor : ℕ → String → Option ℕ → String → Bool
before_cursor created_at id none before_id = true
before_cursor created_at id (some at) before_id =
    ltb created_at at || (created_at == at && text_ltb id before_id)

unfoldable pub is_before_task_cursor : ℕ → String → ListTasksOptions → Bool
is_before_task_cursor created_at id o = before_cursor created_at id o.before_created_at o.before_id

-- The loop over the tasks.
unfoldable pub list_items : ListTasksOptions → Assoc Task → List TaskListItem
unfolding is_before_task_cursor
list_items o [] = []
list_items o ((k, t) ∷ m) =
    let rest = list_items o m in
    if other_workflow o.workflow t
    then rest
    else if other_status o.status t
    then rest
    else if not (is_before_task_cursor t.created_at t.id o)
    then rest
    else new_task_list_item t ∷ rest

-- The comparison of the sort.
unfoldable pub newer : TaskListItem → TaskListItem → Bool
newer a b =
    if a.created_at == b.created_at then text_ltb b.id a.id else ltb b.created_at a.created_at

-- `items[:limit]` where there are more.
abbrev pub cut : ℕ → List TaskListItem → List TaskListItem
cut limit items = if ltb limit (length items) then take limit items else items

unfoldable pub list_tasks : Context → ListTasksOptions → Exec MemoryTaskStore (List TaskListItem)
unfolding validate list_items newer sort
list_tasks ctx o s =
    (do
      check ctx
      lift (validate o)
      return (cut (magnitude o.limit) (sort newer (list_items o s.tasks))))
      s
