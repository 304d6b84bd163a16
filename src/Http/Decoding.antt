-- ===== src/Http/Decoding.antt =====
-- internal/transport/http/handler.go: the bodies of the requests, and their durations.
-- encoding/json, time.ParseDuration and strconv.Atoi are parameters.
use taskpulse.Prelude.{
  ℕ, ◌^◌, String, Bool, Option, none, some, ℤ, pos, is_neg, is_nonpos, ltb, is_empty, byte_length,
  if◌then◌else◌,
}
use taskpulse.Result.{Result, ok, err, invalid_worker_request}

pub record CreateTaskRequest : Type 0 where
  pub workflow : String
  pub input : String
  pub max_retries : ℤ

pub record WorkerClaimRequest : Type 0 where
  pub worker_id : String
  pub workflow : String
  pub lease_duration : String

pub record WorkerHeartbeatRequest : Type 0 where
  pub worker_id : String
  pub lease_token : String
  pub lease_duration : String

pub record WorkerCompleteRequest : Type 0 where
  pub worker_id : String
  pub lease_token : String
  pub version : ℕ
  pub output : String
  pub result_ref : String

pub record WorkerProgressRequest : Type 0 where
  pub worker_id : String
  pub lease_token : String
  pub version : ℕ
  pub progress : ℤ
  pub message : String

pub record WorkerFailRequest : Type 0 where
  pub worker_id : String
  pub lease_token : String
  pub version : ℕ
  pub error_code : String
  pub error_message : String
  pub retryable : Bool
  pub retry_after : String

pub record WorkerReleaseRequest : Type 0 where
  pub worker_id : String
  pub lease_token : String
  pub version : ℕ

-- `decoder.Decode` with unknown fields refused: the value and what of the input is left.
abbrev pub Decoder : Type 0 → Type 0
Decoder A = String → Option (A × String)

pub record Decoders : Type 0 where
  pub create : Decoder CreateTaskRequest
  pub claim : Decoder WorkerClaimRequest
  pub heartbeat : Decoder WorkerHeartbeatRequest
  pub complete : Decoder WorkerCompleteRequest
  pub progress : Decoder WorkerProgressRequest
  pub fail : Decoder WorkerFailRequest
  pub release : Decoder WorkerReleaseRequest
  -- A second `Decode` of what is left reports `io.EOF`.
  pub at_end : String → Bool
  pub parse_duration : String → Option ℤ
  pub atoi : String → Option ℤ

abbrev pub max_request_body_bytes : ℕ
max_request_body_bytes = 2 ^ 20

-- A body over the limit is an error of the reader, in the first or the second `Decode`.
unfoldable pub decode_json : {A : Type 0} → (String → Bool) → Decoder A → String → Option A
decode_json at_end decode body =
    if ltb max_request_body_bytes (byte_length body)
    then none
    else elim (decode body) [ none ↦ none | some (a, rest) ↦ if at_end rest then some a else none ]

module _ (parse_duration : String → Option ℤ) where
  unfoldable pub parse_optional_duration : String → Result ℤ
  parse_optional_duration raw = if is_empty raw then ok (pos 0) else elim (parse_duration raw) [
    | none ↦ err (invalid_worker_request "retry_after must be a non-negative duration")
    | some d ↦
        if is_neg d
        then err (invalid_worker_request "retry_after must be a non-negative duration")
        else ok d
  ]

  unfoldable pub parse_lease_duration : String → Result ℤ
  parse_lease_duration raw =
      if is_empty raw
      then err (invalid_worker_request "lease_duration is required")
      else elim (parse_duration raw) [
        | none ↦ err (invalid_worker_request "lease_duration must be a positive duration")
        | some d ↦
            if is_nonpos d
            then err (invalid_worker_request "lease_duration must be a positive duration")
            else ok d
      ]
