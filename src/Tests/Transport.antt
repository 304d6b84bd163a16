-- ===== src/Tests/Transport.antt =====
-- Requests to the router of internal/transport/http, and the metrics of internal/observability.
use taskpulse.Prelude.{
  ℕ, ◌+◌, ◌≡◌, ◌⊎◌, ◌↔◌, refl, trim_space, true, pos, none, some, List, [], ◌∷◌, lookup,
}
use taskpulse.Task.{succeeded}
use taskpulse.Application.TaskDetail.{DetailCodec}
use taskpulse.Metrics.{
  FloatOperations, Recording, claim_attempt, claim_miss, task_completed, recorded,
}
use taskpulse.Metrics.Counters.{reading, attempts, reading-recorded}
use taskpulse.Metrics.Served.{IsServed, recorded-IsServed}
use taskpulse.Http.{Handler, Request, write_error, authorize_worker, with_worker_auth_token}
use taskpulse.Http.Decoding.{Decoders}
use taskpulse.Http.WorkerHandlers.{Claims}
use taskpulse.Http.Router.{release, Mux, RawRequest, Draws, serve, handle, handled, request_of}
use taskpulse.Http.Refinement.{asked, serve-IsStep}
use taskpulse.Http.Steps.{IsStep, IsRefused}
use taskpulse.Client.{Client, worker_headers}
use taskpulse.Client.Agreement.{header_value, token_of, client_agrees}
use taskpulse.Http.Authorization.{IsBearer, unlocked, worker_access}
use taskpulse.System.{empty_stores}
use taskpulse.Tests.Fixtures.{plain_codec}

-- Seconds as numbers, for the tests.
abbrev pub plain_floats : FloatOperations ℕ
plain_floats = record { zero_float = 0; plus = λ a b. a + b; seconds = λ d. d }

abbrev history : List Recording
history =
    task_completed "resize" succeeded 60_000_000
    ∷ claim_miss ""
    ∷ claim_attempt ""
    ∷ claim_attempt "resize"
    ∷ task_completed "resize" succeeded 40_000_000
    ∷ []

reading-recorded_example : reading (attempts "all") (recorded plain_floats history) ≡ 1
reading-recorded_example = reading-recorded plain_floats (attempts "all") history

recorded-IsServed_example :
    IsServed plain_floats
      (λ n. "0.5")
      "resize"
      (60_000_000 ∷ 40_000_000 ∷ [])
      (lookup "resize" (recorded plain_floats history).execution_hist)
recorded-IsServed_example = recorded-IsServed plain_floats (λ n. "0.5") "resize" history

-- The body of a creation is the workflow; no other body can be read.
abbrev pub plain_decoders : Decoders
plain_decoders = record {
  create = λ body. some (record { workflow = body; input = "{}"; max_retries = pos 2 }, "");
  claim = λ body. none;
  heartbeat = λ body. none;
  complete = λ body. none;
  progress = λ body. none;
  fail = λ body. none;
  release = λ body. none;
  at_end = λ rest. true;
  parse_duration = λ s. none;
  atoi = λ s. none;
}

abbrev no_details : DetailCodec
no_details = record { unmarshal_failure = λ s. none; unmarshal_worker = λ s. none }

abbrev locked : Handler
locked = record { worker_task_service = true; claim_metrics = true; worker_auth_token = "secret" }

abbrev creation_request : RawRequest
creation_request = record {
  method = "POST";
  path = "/tasks";
  header = λ name. "";
  query = λ name. "";
  body = "resize";
}

abbrev to_tasks : Mux
to_tasks patterns method path = some ("POST /tasks", "")

abbrev pub plain_draws : Draws
plain_draws = record {
  ctx = none;
  later_ctx = none;
  now = 10;
  read_at = 11;
  clock = record { checked_at = 10; now = 11 };
  fresh = record { now = 10; task_id = "t1"; event_id = "e1" };
  event_id = "e2";
  int63n = λ n. 0;
  retry_at = 12;
  retry_id = "e3";
}

abbrev pub no_claims : Claims
no_claims = record { stores = empty_stores; told = [] }

serve-IsStep_example :
    let out =
      serve {Seconds = ℕ}
        (λ d. d)
        plain_codec
        no_details
        plain_decoders
        locked
        to_tasks
        true
        creation_request
        plain_draws
        no_claims in
    IsStep plain_codec
      (IsRefused out.0)
      none
      (asked {Seconds = ℕ}
        (λ d. d)
        plain_codec
        no_details
        plain_decoders
        locked
        to_tasks
        true
        creation_request
        plain_draws)
      empty_stores
      out.1.stores
serve-IsStep_example =
    serve-IsStep (λ d. d) plain_codec no_details plain_decoders locked to_tasks true
      creation_request plain_draws no_claims

-- A release without the token.
worker_access_example :
    (IsBearer locked (request_of creation_request "t1")
      × (handle {Seconds = ℕ}
            (λ d. d)
            plain_codec
            no_details
            plain_decoders
            locked
            release
            (request_of creation_request "t1")
            plain_draws
            no_claims
          ≡ handle
              (λ d. d)
              plain_codec
              no_details
              plain_decoders
              (unlocked locked)
              release
              (request_of creation_request "t1")
              plain_draws
              no_claims))
    ⊎ ((¬ IsBearer locked (request_of creation_request "t1"))
        × (handle {Seconds = ℕ}
              (λ d. d)
              plain_codec
              no_details
              plain_decoders
              locked
              release
              (request_of creation_request "t1")
              plain_draws
              no_claims
            ≡ (handled (write_error 401 "worker authentication is required"), no_claims)))
worker_access_example =
    worker_access (λ d. d) plain_codec no_details plain_decoders locked release
      (request_of creation_request "t1") plain_draws no_claims refl refl refl

abbrev spaced_client : Client
spaced_client = record {
  base_url = "http://localhost:8080";
  worker_auth_token = " secret ";
  environment = "other";
}

abbrev sent_claim : Request
sent_claim = record (request_of creation_request "t1") {
  header = λ name. header_value name (worker_headers spaced_client);
}

client_agrees_example :
    (authorize_worker (with_worker_auth_token "secret" locked) sent_claim ≡ true)
    ↔ (token_of spaced_client ≡ trim_space "secret")
unfolding trim_space
client_agrees_example = client_agrees locked "secret" spaced_client sent_claim refl refl
