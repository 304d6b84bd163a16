-- ===== src/Http/Router.antt =====
-- internal/transport/http/routes.go, and a request from the router to its handler. Which of the
-- registered patterns `http.ServeMux` takes for a method and a path is a parameter.
use taskpulse.Prelude.{
  ℕ, String, Bool, Option, none, some, List, [], ◌∷◌, ◌++◌, map, Assoc, lookup, if◌then◌else◌,
}
use taskpulse.Result.{Context}
use taskpulse.Store.Both.{Stores}
use taskpulse.Application.Codec.{Codec}
use taskpulse.Application.TaskService.{Fresh}
use taskpulse.Application.TaskDetail.{DetailCodec}
use taskpulse.Application.WorkerTasks.Operations.{Clock}
use taskpulse.System.{retry_scheduling}
use taskpulse.Http.{Handler, Request, Response}
use taskpulse.Http.Decoding.{Decoders}
use taskpulse.Http.TaskHandlers as Tasks
use taskpulse.Http.TaskHandlers.{Handling}
use taskpulse.Http.WorkerHandlers.{
  Claims, claim_worker_task, heartbeat_worker_task, complete_worker_task, report_worker_progress,
  fail_worker_task, release_worker_task,
}

pub data Endpoint : Type 0 where
  dashboard dashboard_script metrics_handler : Endpoint
  create_task list_tasks get_task_stats get_task cancel_task list_task_events : Endpoint
  claim heartbeat progress complete fail release : Endpoint

abbrev pub task_routes : Assoc Endpoint
task_routes =
    ("GET /", dashboard)
    ∷ ("GET /dashboard", dashboard)
    ∷ ("GET /dashboard.js", dashboard_script)
    ∷ ("POST /tasks", create_task)
    ∷ ("GET /tasks", list_tasks)
    ∷ ("GET /task-stats", get_task_stats)
    ∷ ("GET /tasks/{task_id}", get_task)
    ∷ ("POST /tasks/{task_id}/cancel", cancel_task)
    ∷ ("GET /tasks/{task_id}/events", list_task_events)
    ∷ []

abbrev pub worker_routes : Assoc Endpoint
worker_routes =
    ("POST /worker/tasks/claim", claim)
    ∷ ("POST /worker/tasks/{task_id}/heartbeat", heartbeat)
    ∷ ("POST /worker/tasks/{task_id}/progress", progress)
    ∷ ("POST /worker/tasks/{task_id}/complete", complete)
    ∷ ("POST /worker/tasks/{task_id}/fail", fail)
    ∷ ("POST /worker/tasks/{task_id}/release", release)
    ∷ []

-- What `NewRouter` registers; `metrics` tells whether a handler of the metrics is given.
unfoldable pub new_router : Handler → Bool → Assoc Endpoint
new_router h metrics =
    task_routes
    ++ (if h.worker_task_service then worker_routes else [])
    ++ (if metrics then ("GET /metrics", metrics_handler) ∷ [] else [])

abbrev pub name_of : String × Endpoint → String
name_of (pattern, endpoint) = pattern

-- The pattern that matches a method and a path, and the value of `{task_id}` in it.
abbrev pub Mux : Type 0
Mux = List String → String → String → Option (String × String)

pub record RawRequest : Type 0 where
  pub method : String
  pub path : String
  pub header : String → String
  pub query : String → String
  pub body : String

-- What a handler reads besides the request: the context of its calls, the clock, new ids and the
-- random numbers of a backoff.
pub record Draws : Type 0 where
  pub ctx : Context
  pub later_ctx : Context
  pub now : ℕ
  pub read_at : ℕ
  pub clock : Clock
  pub fresh : Fresh
  pub event_id : String
  pub int63n : ℕ → ℕ
  pub retry_at : ℕ
  pub retry_id : String

-- The mux answers by itself, a handler does, or the dashboard or the handler of the metrics.
pub data Answer (Seconds : Type 0) : Type 0 where
  unmatched delegated : Answer Seconds
  handled : Response Seconds → Answer Seconds

abbrev pub request_of : RawRequest → String → Request
request_of raw id = record { header = raw.header; query = raw.query; task_id = id; body = raw.body }

module _ {Seconds : Type 0} where
  abbrev pub with_stores : Claims → Response Seconds × Stores → Answer Seconds × Claims
  with_stores c out = (handled out.0, record c { stores = out.1 })

  abbrev pub with_claims : Response Seconds × Claims → Answer Seconds × Claims
  with_claims out = (handled out.0, out.1)

  abbrev pub on_stores : Handling Seconds → Claims → Answer Seconds × Claims
  on_stores k c = with_stores c (k c.stores)

  abbrev pub on_claims : (Claims → Response Seconds × Claims) → Claims → Answer Seconds × Claims
  on_claims k c = with_claims (k c)

module _ {Seconds : Type 0} (seconds : ℕ → Seconds) (codec : Codec) (details : DetailCodec)
    (decoders : Decoders) (h : Handler) where
  unfoldable pub handle : Endpoint → Request → Draws → Claims → Answer Seconds × Claims
  handle dashboard r d c = (delegated, c)
  handle dashboard_script r d c = (delegated, c)
  handle metrics_handler r d c = (delegated, c)
  handle create_task r d c = on_stores (Tasks.create_task codec decoders d.ctx r d.fresh) c
  handle list_tasks r d c = on_stores (Tasks.list_tasks codec decoders d.ctx r) c
  handle get_task_stats r d c =
      on_stores (Tasks.get_task_stats codec decoders d.ctx r seconds d.now d.read_at) c
  handle get_task r d c = on_stores (Tasks.get_task details d.ctx r d.now) c
  handle cancel_task r d c =
      on_stores (Tasks.cancel_task details d.ctx d.later_ctx r d.event_id d.now d.read_at) c
  handle list_task_events r d c = on_stores (Tasks.list_task_events codec decoders d.ctx r) c
  handle claim r d c = on_claims (claim_worker_task codec decoders d.ctx h r d.now d.event_id) c
  handle heartbeat r d c = on_stores (heartbeat_worker_task codec decoders d.ctx h r d.now) c
  handle progress r d c =
      on_stores (report_worker_progress codec decoders d.ctx h r d.clock d.event_id) c
  handle complete r d c =
      on_stores (complete_worker_task codec decoders d.ctx h r d.clock d.event_id) c
  handle fail r d c =
      on_stores
        (fail_worker_task codec decoders d.ctx h r
          (some (retry_scheduling codec d.int63n d.ctx d.retry_at d.retry_id)) d.clock d.event_id)
        c
  handle release r d c =
      on_stores (release_worker_task codec decoders d.ctx h r d.clock d.event_id) c

  abbrev pub dispatch :
      Assoc Endpoint
      → Option (String × String)
      → RawRequest
      → Draws
      → Claims
      → Answer Seconds × Claims
  dispatch routes none raw d c = (unmatched, c)
  dispatch routes (some (pattern, id)) raw d c = elim (lookup pattern routes) [
    | none ↦ (unmatched, c)
    | some endpoint ↦ handle endpoint (request_of raw id) d c
  ]

  -- One request; the routes are those of the handler.
  unfoldable pub serve : Mux → Bool → RawRequest → Draws → Claims → Answer Seconds × Claims
  unfolding new_router handle lookup
  serve mux metrics raw d c =
      let routes = new_router h metrics in
      dispatch routes (mux (map name_of routes) raw.method raw.path) raw d c
