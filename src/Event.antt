-- ===== src/Event.antt =====
-- internal/domain/event.go: the audit event of a task and its constructors.
-- `json.Marshal` is the function `marshal` of `Json`, on the fields of the structure that the code
-- builds; `none` is its error (a time whose year has more than four digits).
use taskpulse.Prelude.{
  ℕ, ◌/◌, ℤ, is_nonpos, magnitude, String, Bool, true, false, not, Option, none, some, List, [],
  ◌∷◌, ltb, is_empty, if◌then◌else◌,
}
use taskpulse.Result.{
  Result, ok, err, nil_receiver, event_id_required, event_task_id_required, event_type_required,
  progress_out_of_range, invalid_claim_kind, not_queued_after_release, not_canceled, not_retrying,
  retry_error_code_required, retry_delay_not_positive, marshal_failed,
}
use taskpulse.Task.{
  Task, ClaimKind, initial, retry, recovery, invalid, is_queued, is_canceled, is_retrying,
}

-- The constants; `unset` is the empty type.
pub data EventType : Type 0 where
  task_created task_started task_retry_started task_recovered task_retrying task_released :
      EventType
  task_progress task_succeeded task_partially_succeeded task_failed task_canceled : EventType
  item_started item_succeeded item_failed item_retrying : EventType
  unset : EventType

abbrev pub is_unset : EventType → Bool
is_unset unset = true
is_unset _ = false

pub record TaskEvent : Type 0 where
  pub id : String
  pub task_id : String
  pub type : EventType
  pub message : String
  pub payload : String
  pub progress : ℕ
  pub created_at : ℕ

-- A field of a structure that is marshaled.
pub data Field : Type 0 where
  text : String → Field
  number : ℕ → Field
  flag : Bool → Field
  -- A time, and a time that is left out where it is nil.
  time : ℕ → Field
  time_or_omitted : Option ℕ → Field

abbrev pub Fields : Type 0
Fields = List (String × Field)

-- encoding/json, as far as the program calls it.
pub record Json : Type 1 where
  -- What decoding into an `any` gives.
  pub Value : Type 0
  -- `json.Marshal` of a structure or a map with these fields.
  pub marshal : Fields → Option String
  -- `decoder.Decode` with `UseNumber`: the next value and what is left of the input.
  pub decode : String → Option (Value × String)
  -- The next `Decode` reports `io.EOF`.
  pub at_eof : String → Bool
  -- `reflect.DeepEqual`
  pub deep_equal : Value → Value → Bool
  -- `json.Unmarshal` into an `any`, and `json.Marshal` of it.
  pub unmarshal : String → Option Value
  pub marshal_value : Value → Option String

unfoldable pub new_task_event :
    String → String → EventType → String → String → ℕ → ℕ → Result TaskEvent
new_task_event id task_id type message payload progress now =
    if is_empty id
    then err event_id_required
    else if is_empty task_id
    then err event_task_id_required
    else if is_unset type
    then err event_type_required
    else if ltb 100 progress
    then err progress_out_of_range
    else ok (record {
      id = id;
      task_id = task_id;
      type = type;
      message = message;
      payload = if is_empty payload then "{}" else payload;
      progress = progress;
      created_at = now;
    })

abbrev claimed_type : ClaimKind → Option (EventType × String)
claimed_type initial = some (task_started, "task started")
claimed_type retry = some (task_retry_started, "task retry started")
claimed_type recovery = some (task_recovered, "task recovered after lease expiration")
claimed_type invalid = none

-- The shared end of the constructors that marshal their payload.
abbrev pub with_payload : Option String → (String → Result TaskEvent) → Result TaskEvent
with_payload none build = err marshal_failed
with_payload (some payload) build = build payload

claimed_event : Json → String → Task → Option (EventType × String) → ℕ → Result TaskEvent
unfolding new_task_event
claimed_event json id t none now = err invalid_claim_kind
claimed_event json id t (some (type, message)) now =
    with_payload
      (json.marshal (
        ("worker_id", text t.lease_owner)
        ∷ ("lease_until", time_or_omitted t.lease_expires_at)
        ∷ ("retry_count", number t.retry_count)
        ∷ []))
      (λ payload. new_task_event id t.id type message payload t.progress now)

unfoldable pub new_task_claimed_event :
    Json → String → Option Task → ClaimKind → ℕ → Result TaskEvent
unfolding claimed_event
new_task_claimed_event json id none kind now = err nil_receiver
new_task_claimed_event json id (some t) kind now = claimed_event json id t (claimed_type kind) now

unfoldable pub new_task_expired_event : String → Option Task → ℕ → Result TaskEvent
unfolding new_task_event
new_task_expired_event id none now = err nil_receiver
new_task_expired_event id (some t) now =
    new_task_event id t.id task_failed "task failed after lease expiration"
      "{\"reason\":\"retry_budget_exhausted\"}" t.progress now

unfoldable pub new_task_released_event : String → Option Task → ℕ → Result TaskEvent
unfolding new_task_event
new_task_released_event id none now = err nil_receiver
new_task_released_event id (some t) now =
    if not (is_queued t.status)
    then err not_queued_after_release
    else new_task_event id t.id task_released "task released by worker during graceful shutdown"
        "{\"reason\":\"worker_shutdown\"}" t.progress now

unfoldable pub new_task_canceled_event : String → Option Task → ℕ → Result TaskEvent
unfolding new_task_event
new_task_canceled_event id none now = err nil_receiver
new_task_canceled_event id (some t) now =
    if not (is_canceled t.status)
    then err not_canceled
    else new_task_event id t.id task_canceled "task canceled" "{\"reason\":\"requested_by_caller\"}"
        t.progress now

-- `delay.Milliseconds()`
abbrev milliseconds : ℤ → ℕ
milliseconds delay = magnitude delay / 1_000_000

unfoldable pub new_task_retrying_event :
    Json → String → Option Task → String → ℤ → ℕ → Result TaskEvent
unfolding new_task_event
new_task_retrying_event json id none error_code delay now = err nil_receiver
new_task_retrying_event json id (some t) error_code delay now =
    if not (is_retrying t.status)
    then err not_retrying
    else if is_empty error_code
    then err retry_error_code_required
    else if is_nonpos delay
    then err retry_delay_not_positive
    else with_payload
        (json.marshal (
          ("error_code", text error_code)
          ∷ ("retry_count", number t.retry_count)
          ∷ ("max_retries", number t.max_retries)
          ∷ ("available_at", time t.available_at)
          ∷ ("delay_ms", number (milliseconds delay))
          ∷ []))
        (λ payload.
          new_task_event id t.id task_retrying "task scheduled for retry" payload t.progress now)
