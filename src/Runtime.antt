-- ===== src/Runtime.antt =====
-- pkg/taskpulseworker/runtime.go: the runtime that a worker outside the server is built on: its
-- configuration, the registered executors, the check of a claim's answer, the backoff of claims and
-- the classification of errors. Its loop, an execution and the heartbeats are in the child modules.
pub mod Facts
pub mod Loop
pub mod Session
pub mod Ending
pub mod Reports
pub mod Overtaking
use taskpulse.Prelude.{
  ℕ, zero, suc, ◌-◌, ◌*◌, ◌/◌, ◌%◌, ◌^◌, String, Bool, true, false, not, ◌&&◌, ◌||◌, Option, none,
  some, List, [], ◌∷◌, ℤ, pos, is_neg, is_nonpos, magnitude, ltb, leb, ◌==◌, text_eq, trim_space,
  is_empty, is_blank, is_some, if◌then◌else◌, Assoc, lookup, insert,
}
use taskpulse.Result.{Result, ok, err, invalid_config, invalid_registration, invalid_claim_response}
use taskpulse.Worker.Backoff.{ltb_ℤ}

-- A client or an executor is there or nil.
pub record Config : Type 0 where
  pub client : Bool
  pub worker_id : String
  pub workflow : String
  pub lease_duration : ℤ
  pub poll_interval : ℤ
  pub claim_retry_max_interval : ℤ
  pub heartbeat_interval : ℤ
  pub execution_timeout : ℤ
  pub shutdown_timeout : ℤ

pub record Runtime : Type 0 where
  pub worker_id : String
  pub workflow : String
  pub lease_duration : ℕ
  pub poll_interval : ℕ
  pub claim_retry_max_interval : ℕ
  pub heartbeat_interval : ℕ
  pub execution_timeout : ℕ
  pub shutdown_timeout : ℕ
  pub executors : Assoc (Unit {0})

-- `if d <= 0 { d = fallback }`
abbrev pub or_default : ℤ → ℕ → ℕ
or_default d fallback = if is_nonpos d then fallback else magnitude d

abbrev pub at_least : ℕ → ℕ → ℕ
at_least low d = if ltb d low then low else d

-- A heartbeat comes within the lease, or three times in it.
abbrev pub heartbeat_for : ℤ → ℕ → ℕ
heartbeat_for d lease = if is_nonpos d || leb lease (magnitude d) then lease / 3 else magnitude d

unfoldable pub new_runtime : Config → Result Runtime
new_runtime c =
    let lease = or_default c.lease_duration 30_000_000_000 in
    let poll = or_default c.poll_interval 1_000_000_000 in
    if not c.client
    then err (invalid_config "taskpulse client is required")
    else if is_empty c.worker_id
    then err (invalid_config "worker id is required")
    else if is_blank c.workflow
    then err (invalid_config "workflow is required")
    else if is_neg c.execution_timeout
    then err (invalid_config "execution timeout cannot be negative")
    else ok (record {
      worker_id = c.worker_id;
      workflow = trim_space c.workflow;
      lease_duration = lease;
      poll_interval = poll;
      claim_retry_max_interval =
          at_least poll (or_default c.claim_retry_max_interval 5_000_000_000);
      heartbeat_interval = heartbeat_for c.heartbeat_interval lease;
      execution_timeout = magnitude c.execution_timeout;
      shutdown_timeout = or_default c.shutdown_timeout 5_000_000_000;
      executors = [];
    })

unfoldable pub register : String → Bool → Runtime → Result Runtime
register workflow executor r =
    if is_empty workflow
    then err (invalid_registration "workflow is required")
    else if not executor
    then err (invalid_registration "executor is required")
    else if not (text_eq workflow r.workflow)
    then err (invalid_registration "executor workflow does not match runtime workflow")
    else if is_some (lookup workflow r.executors)
    then err (invalid_registration "executor already registered for workflow")
    else ok (record r { executors = insert workflow tt r.executors })

-- The fields of a task that the runtime checks.
pub record ClaimedTask : Type 0 where
  pub id : String
  pub workflow : String
  pub status : String
  pub lease_token : String

unfoldable pub validate_claimed_task : Runtime → Option ClaimedTask → Result (Unit {0})
validate_claimed_task r none =
    err (invalid_claim_response "invalid claim response: task id is required")
validate_claimed_task r (some t) =
    if is_blank t.id
    then err (invalid_claim_response "invalid claim response: task id is required")
    else if not (text_eq t.workflow r.workflow)
    then err (invalid_claim_response "workflow does not match Worker workflow")
    else if not (text_eq t.status "running")
    then err (invalid_claim_response "status is not running")
    else if is_blank t.lease_token
    then err (invalid_claim_response "lease token is required")
    else ok tt

-- The loop over `attempt`, with the rounds that are left; doubling wraps in 64 bits.
unfoldable pub retry_loop : ℕ → ℕ → ℕ → ℕ
retry_loop zero maximum delay = delay
retry_loop (suc rounds) maximum delay =
    let rest = retry_loop rounds maximum ((delay * 2) % 2 ^ 64) in
    if ltb delay maximum then (if ltb (maximum / 2) delay then maximum else rest) else delay

unfoldable pub claim_retry_delay : ℤ → ℤ → ℕ → ℕ
unfolding retry_loop
claim_retry_delay base maximum failures =
    let low = or_default base 1_000_000_000 in
    let high = if ltb_ℤ maximum (pos low) then low else magnitude maximum in
    if leb failures 1 then low else retry_loop (failures - 1) high low

-- What `errors.Is` and `errors.As` find in the error of a claim.
pub record ClaimError : Type 0 where
  pub canceled : Bool
  pub deadline_exceeded : Bool
  pub status_code : Option ℕ
  pub network : Bool

unfoldable pub is_retryable_claim_error : Option ClaimError → Bool
is_retryable_claim_error none = false
is_retryable_claim_error (some e) =
    if e.canceled then false else if e.deadline_exceeded then true else elim e.status_code [
      | none ↦ e.network
      | some code ↦ code == 408 || code == 429 || leb 500 code
    ]

-- A `Failure` in the chain of an error.
pub record Failure : Type 0 where
  pub code : String
  pub message : String
  pub retryable : Bool
  pub retry_after : ℤ

-- `text` is `err.Error()`, and the failure is what `errors.As` finds.
pub data ExecutorError : Type 0 where
  classified : Failure → String → ExecutorError
  unclassified : String → ExecutorError

unfoldable pub classify : Option ExecutorError → Failure
classify none = record {
  code = "worker_error";
  message = "task failed";
  retryable = true;
  retry_after = pos 0;
}
classify (some (classified f text)) = record f {
  code = if is_empty f.code then "worker_error" else f.code;
  message = if is_empty f.message then text else f.message;
}
classify (some (unclassified text)) = record {
  code = "worker_error";
  message = text;
  retryable = false;
  retry_after = pos 0;
}
