-- ===== src/Application/WorkerTasks/Tokens.antt =====
-- Lease tokens, and what every operation of internal/application/worker_task_service.go checks
-- with them before it changes a task.
use taskpulse.Prelude.{
  ℕ, String, Bool, false, not, ◌&&◌, ◌||◌, Option, none, some, List, [], ◌∷◌, ltb, ◌==◌, text_eq,
  is_empty, is_blank, is_some, if◌then◌else◌,
}
use taskpulse.Result.{
  Result, ok, err, Context, Exec, return, lift, ◌>>=◌, ◌>>◌, fail_if, lease_lost, task_conflict,
  invalid_worker_request,
}
use taskpulse.Task.{Task, TaskStatus, is_running, status_text}
use taskpulse.Event.{text, number}
use taskpulse.Store.Tasks.{get, lease_time, next_version}
use taskpulse.Store.Both.{Stores, on_tasks}
use taskpulse.Application.Codec.{Codec, LeaseTokenPayload}

-- `payload, _ := json.Marshal(...)`: an error leaves no bytes.
abbrev pub or_nothing : Option String → String
or_nothing none = ""
or_nothing (some bytes) = bytes

unfoldable pub complete_payload : Option LeaseTokenPayload → Result LeaseTokenPayload
complete_payload none = err lease_lost
complete_payload (some p) =
    if is_empty p.task_id || is_empty p.worker_id || p.version == 0 then err lease_lost else ok p

-- `err != nil || payload.TaskID != taskID || payload.WorkerID != workerID`
abbrev pub matching : Result LeaseTokenPayload → String → String → Result LeaseTokenPayload
matching (err e) id worker = err lease_lost
matching (ok p) id worker =
    if not (text_eq p.task_id id) || not (text_eq p.worker_id worker) then err lease_lost else ok p

-- `for _, status := range statuses`
abbrev pub has_status : TaskStatus → List TaskStatus → Bool
has_status s [] = false
has_status s (x ∷ xs) = text_eq (status_text s) (status_text x) || has_status s xs

-- The lease of the task is held by this worker at `now`.
abbrev pub is_held : String → ℕ → Task → Bool
is_held worker now t =
    is_running t.status
    && (text_eq t.lease_owner worker && (is_some t.lease_expires_at && ltb now (lease_time t)))

module _ (codec : Codec) where
  open codec use {json, encode_base64, decode_base64, unmarshal_lease_token}

  unfoldable pub make_lease_token : Task → String
  make_lease_token t = encode_base64 (
      or_nothing (
        json.marshal (
          ("task_id", text t.id)
          ∷ ("worker_id", text t.lease_owner)
          ∷ ("version", number t.version)
          ∷ [])))

  unfoldable pub with_lease_token : Task → Task
  unfolding make_lease_token
  with_lease_token t = if is_empty t.lease_owner then t else record t {
    lease_token = make_lease_token t;
    task_id = t.id;
    lease_until = t.lease_expires_at;
  }

  unmarshal_bytes : Option String → Option LeaseTokenPayload
  unmarshal_bytes none = none
  unmarshal_bytes (some bytes) = unmarshal_lease_token bytes

  unfoldable pub parse_lease_token : String → Result LeaseTokenPayload
  unfolding complete_payload unmarshal_bytes
  parse_lease_token raw = complete_payload (unmarshal_bytes (decode_base64 raw))

  -- The checks of a token that need no store, with which the three functions below begin.
  unfoldable pub token_payload : String → String → String → Result LeaseTokenPayload
  unfolding parse_lease_token
  token_payload id worker token =
      if is_blank token then err lease_lost else matching (parse_lease_token token) id worker

  unfoldable pub validate_lease_token : Context → String → String → String → Exec Stores (Unit {0})
  unfolding token_payload get
  validate_lease_token ctx id worker token = do
    p ← lift (token_payload id worker token)
    t ← on_tasks (get ctx id)
    fail_if (not (t.version == p.version) || not (text_eq t.lease_owner worker)) lease_lost
    return tt

  unfoldable pub resolve_lease_version : Context → String → String → String → Exec Stores ℕ
  unfolding validate_lease_token
  resolve_lease_version ctx id worker token = do
    p ← lift (token_payload id worker token)
    validate_lease_token ctx id worker token
    return p.version

  -- The task if the operation was already carried out with this token.
  unfoldable pub replay_worker_operation :
      Context → String → String → String → List TaskStatus → Exec Stores (Option Task)
  unfolding token_payload get
  replay_worker_operation ctx id worker token statuses = do
    p ← lift (token_payload id worker token)
    t ← on_tasks (get ctx id)
    return (
        if not (t.version == next_version p.version)
        then none
        else if has_status t.status statuses
        then some t
        else none)

  unfoldable pub prepare_running_task : Context → String → String → ℕ → ℕ → Exec Stores Task
  unfolding get
  prepare_running_task ctx id worker version now = do
    fail_if (is_empty id || is_blank worker) (invalid_worker_request "")
    t ← on_tasks (get ctx id)
    fail_if (not (is_held worker now t)) lease_lost
    fail_if (not (t.version == version)) task_conflict
    return t
