-- ===== src/Client.antt =====
-- pkg/taskpulse/client.go: the client of the HTTP interface. A call is the request that is built, and
-- the result that is read from the response. encoding/json, net/url, the formatting of durations and
-- what net/http does with a request are parameters.
pub mod Agreement
use taskpulse.Prelude.{
  ℕ, String, Bool, true, false, not, ◌||◌, Option, none, some, List, [], ◌∷◌, ◌++◌, ℤ, ltb, leb,
  ◌==◌, is_nonpos, is_empty, text_append, trim_space, trim_right_of, if◌then◌else◌,
}
use taskpulse.Http.Decoding.{
  CreateTaskRequest, WorkerClaimRequest, WorkerHeartbeatRequest, WorkerCompleteRequest,
  WorkerProgressRequest, WorkerFailRequest, WorkerReleaseRequest,
}

-- `environment` is `os.Getenv("TASKPULSE_WORKER_AUTH_TOKEN")`.
pub record Client : Type 0 where
  pub base_url : String
  pub worker_auth_token : String
  pub environment : String

abbrev pub Headers : Type 0
Headers = List (String × String)

pub record HttpRequest : Type 0 where
  pub method : String
  pub url : String
  pub headers : Headers
  pub body : Option String

-- The body as it is read, that of an error up to 1 MB, or none if it cannot be read.
pub record HttpResponse : Type 0 where
  pub status : ℕ
  pub body : Option String

pub data ClientError : Type 0 where
  base_url_required encode_failed create_failed call_failed read_failed decode_failed : ClientError
  no_task_available : ClientError
  http_error : ℕ → String → ClientError

pub data Outcome (A : Type 0) : Type 0 where
  done : A → Outcome A
  failed : ClientError → Outcome A

-- `json.Marshal` of the bodies, whose fields are those that the handlers decode, `url.PathEscape`,
-- `Duration.String`, and `http.NewRequestWithContext` with `Do`: a request cannot be made, or has no
-- response, or has one.
pub record Wire : Type 0 where
  pub create : CreateTaskRequest → Option String
  pub claim : WorkerClaimRequest → Option String
  pub heartbeat : WorkerHeartbeatRequest → Option String
  pub complete : WorkerCompleteRequest → Option String
  pub progress : WorkerProgressRequest → Option String
  pub fail : WorkerFailRequest → Option String
  pub release : WorkerReleaseRequest → Option String
  pub path_escape : String → String
  pub format_duration : ℤ → String
  pub is_request : HttpRequest → Bool
  pub send : HttpRequest → Option HttpResponse

abbrev pub or_else_text : String → String → String
or_else_text first second = if is_empty first then second else first

unfoldable pub worker_headers : Client → Headers
worker_headers c =
    let token = or_else_text (trim_space c.worker_auth_token) (trim_space c.environment) in
    if is_empty token then [] else ("Authorization", text_append "Bearer " token) ∷ []

abbrev pub content_headers : Bool → Headers
content_headers has_body = if has_body then ("Content-Type", "application/json") ∷ [] else []

-- What is read from a response.
unfoldable pub read_response : {A : Type 0} → (String → Option A) → HttpResponse → Outcome A
read_response decode response =
    if ltb response.status 200 || leb 300 response.status
    then elim response.body [
      | none ↦ failed read_failed
      | some text ↦ failed (http_error response.status (trim_space text))
    ]
    else if response.status == 204
    then failed (http_error 204 "")
    else elim response.body [
      | none ↦ failed decode_failed
      | some text ↦ elim (decode text) [ none ↦ failed decode_failed | some a ↦ done a ]
    ]

module _ (wire : Wire) (c : Client) where
  open wire use {path_escape, format_duration, is_request, send}

  abbrev pub sent : {A : Type 0} → (String → Option A) → HttpRequest → Outcome A
  sent decode request =
      if not (is_request request) then failed create_failed else elim (send request) [
        | none ↦ failed call_failed
        | some response ↦ read_response decode response
      ]

  -- The body is absent, or the bytes that `json.Marshal` gives.
  abbrev pub with_encoded :
      {A : Type 0}
      → (String → Option A)
      → String
      → String
      → Option (Option String)
      → Headers
      → Outcome A
  with_encoded decode method url none headers = sent decode (record {
    method = method;
    url = url;
    headers = ("Accept", "application/json") ∷ (content_headers false ++ headers);
    body = none;
  })
  with_encoded decode method url (some none) headers = failed encode_failed
  with_encoded decode method url (some (some bytes)) headers = sent decode (record {
    method = method;
    url = url;
    headers = ("Accept", "application/json") ∷ (content_headers true ++ headers);
    body = some bytes;
  })

  unfoldable pub do_json :
      {A : Type 0}
      → (String → Option A)
      → String
      → String
      → Option (Option String)
      → Headers
      → Outcome A
  unfolding read_response trim_right_of trim_space
  do_json decode method path body headers =
      let base = trim_right_of b'/' (trim_space c.base_url) in
      if is_empty base
      then failed base_url_required
      else with_encoded decode method (text_append base path) body headers

  module _ {T : Type 0} (decode : String → Option T) where
    unfoldable pub create_task : CreateTaskRequest → String → Outcome T
    unfolding do_json
    create_task q idempotency_key =
        do_json decode "POST" "/tasks"
          (some (wire.create (record q { input = or_else_text q.input "{}" })))
          (if is_empty idempotency_key then [] else ("Idempotency-Key", idempotency_key) ∷ [])

    abbrev pub task_path : String → String → String
    task_path id rest = text_append "/tasks/" (text_append (path_escape id) rest)

    unfoldable pub get_task : String → Outcome T
    unfolding do_json
    get_task id = do_json decode "GET" (task_path id "") none []

    unfoldable pub cancel_task : String → Outcome T
    unfolding do_json
    cancel_task id = do_json decode "POST" (task_path id "/cancel") none []

    abbrev pub worker_path : String → String → String
    worker_path id rest = text_append "/worker/tasks/" (text_append (path_escape id) rest)

    -- Status 204 is the answer that there is no task.
    abbrev pub after_claim : Outcome T → Outcome T
    after_claim (failed (http_error status text)) =
        if status == 204 then failed no_task_available else failed (http_error status text)
    after_claim out = out

    unfoldable pub claim : String → String → ℤ → Outcome T
    unfolding do_json worker_headers
    claim worker_id workflow lease = after_claim (
        do_json decode "POST" "/worker/tasks/claim"
          (some (
            wire.claim (record {
              worker_id = worker_id;
              workflow = workflow;
              lease_duration = format_duration lease;
            })))
          (worker_headers c))

    abbrev pub worker_task : String → Option String → Outcome T
    worker_task path body = do_json decode "POST" path (some body) (worker_headers c)

    unfoldable pub heartbeat : String → String → String → ℤ → Outcome T
    unfolding do_json worker_headers
    heartbeat id worker_id lease_token lease = worker_task (worker_path id "/heartbeat") (
        wire.heartbeat (record {
          worker_id = worker_id;
          lease_token = lease_token;
          lease_duration = format_duration lease;
        }))

    unfoldable pub progress : String → WorkerProgressRequest → Outcome T
    unfolding do_json worker_headers
    progress id q = worker_task (worker_path id "/progress") (wire.progress q)

    unfoldable pub complete : String → WorkerCompleteRequest → Outcome T
    unfolding do_json worker_headers
    complete id q = worker_task (worker_path id "/complete") (wire.complete q)

    -- `formatOptionalDuration`
    abbrev pub format_optional_duration : ℤ → String
    format_optional_duration d = if is_nonpos d then "" else format_duration d

    unfoldable pub fail : String → WorkerFailRequest → ℤ → Outcome T
    unfolding do_json worker_headers
    fail id q retry_after =
        worker_task (worker_path id "/fail")
          (wire.fail (record q { retry_after = format_optional_duration retry_after }))

    unfoldable pub release : String → WorkerReleaseRequest → Outcome T
    unfolding do_json worker_headers
    release id q = worker_task (worker_path id "/release") (wire.release q)

  unfoldable pub list_task_events :
      {E : Type 0} → (String → Option (List E)) → String → Outcome (List E)
  unfolding do_json
  list_task_events decode id =
      do_json decode "GET" (text_append "/tasks/" (text_append (path_escape id) "/events")) none []
