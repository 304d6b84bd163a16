-- ===== src/Lib.antt =====
-- TaskPulse: a queue of tasks that external and internal workers claim under leases, with retries,
-- idempotent creation and an audit trail of events.
--
-- The parts and how they meet. A client creates, reads and cancels tasks through
-- internal/application/task_service.go; a worker claims a task, keeps its lease alive, reports
-- progress and ends it through internal/application/worker_task_service.go; a reaper
-- (internal/worker/reaper.go) fails tasks whose last lease ran out. A worker inside the server
-- (internal/worker/worker.go) claims, runs and ends tasks on the stores themselves. All of them call
-- the stores of internal/store, which hold the tasks and their events and change both together. The
-- rules of a single task are in internal/domain. Workers outside the server are built on
-- pkg/taskpulseworker/runtime.go. Requests reach the services through the handlers of
-- internal/transport/http, and internal/observability counts what happens.
--
-- Which file models which part:
--   Task, Event            internal/domain/task.go, task_claim.go, event.go. The structs are records
--                          with the fields of the source, a method that mutates its receiver
--                          returns the new record.
--   Store/Tasks            internal/store/task_store.go, memory_task_store.go. `MemoryTaskStore` is
--                          the record of its two maps; claimNextLocked is `claim_next_locked`.
--   Store/Events           internal/store/memory_event_store.go.
--   Store/Creation         internal/store/task_creation_store.go.
--   Store/Transition       internal/store/task_transition_store.go.
--   Store/Cancellation     internal/store/task_cancellation_store.go.
--   Store/Query            internal/store/task_query_store.go.
--   Store/Stats            internal/store/task_stats_store.go.
--   Worker                 internal/worker/retry_policy.go, execution_error.go, retry_scheduler.go,
--                          reaper.go, and the scheduler of cmd/taskpulse/main.go.
--   Worker/Processing      internal/worker/worker.go: ProcessNext, its ends and its heartbeats;
--                          Worker/Polling is its loop Run.
--   Application            the two services; each call of the clock and each new id is an argument.
--                          ListTasks with its cursors is in TaskLists, GetTaskStats in TaskStats,
--                          GetTaskDetail in TaskDetail.
--   Http                   internal/transport/http/handler.go, response.go, routes.go: a request's
--                          decoding, authorisation and handler, as functions of the request and the
--                          stores; Http/Router picks the handler.
--   Metrics                internal/observability/metrics.go: the counters and the histogram, and in
--                          Metrics/Exposition the lines that are served of them.
--   Runtime                pkg/taskpulseworker/runtime.go: configuration, executors, claim backoff.
--                          Runtime/Loop is Run, Runtime/Ending how execute ends an attempt, and
--                          Runtime/Session the heartbeats and progress reports of one execution,
--                          step by step, with the server's answers.
--   Client                 pkg/taskpulse/client.go: the requests that are built and how responses
--                          are read.
--   UrlCheck               internal/executor/urlcheck: a batch of checks; the goroutines of checkAll
--                          take jobs and write results in any order (`Schedule`).
--   System                 the operations one after another on the stores of the server; an operation
--                          that calls several methods of the stores is one step.
--                          System/TaskHistories is the life of one task, with what the stores and the
--                          services write to it.
--
-- A store method is a function of the store that returns a result and the new store (`Exec` in
-- Result). Errors are values; a failure in the middle of a method leaves what was written before it.
-- A Go map is an association list (Prelude/Maps); the picks are shown not to depend on its order.
-- Times and durations are nanoseconds, the zero time is 0. Versions are uint64 and wrap at 2 ^ 64.
--
-- Parameters of the model, since their code is not in the repository: encoding/json and
-- base64.RawURLEncoding (`Codec`, `Json`, `DetailCodec`), what an executor does, the random source
-- of the backoff, the clock, new ids, the state of the context at a call, the decoding of request
-- bodies and durations (`Decoders`), the match of http.ServeMux (`Mux`), float64, the encoding and the
-- transport of a client's requests (`Wire`), and for the checks of URLs their parsing and the HTTP
-- client (`Environment`). The only laws of the codec that a theorem assumes are those of `IsCarried`:
-- JSON and base64 give a cursor back.
--
-- Bounds and fuel: every loop of the modelled code is over a list or counts down, so no fuel is used;
-- the loops that do not end by themselves are over the ticks or rounds that they get to. A client
-- that follows cursors takes fuel, and one request more than there are tasks is enough.
--
-- Not modelled: the mutexes of the stores (a method of the in-memory stores holds its locks
-- throughout, so a run is a sequence of whole methods), the MySQL stores, logging, the calls of the
-- metrics by the services and workers, the executor for analyses by a language model, the programs'
-- flags and wiring, and the dashboard.
mod Prelude
pub mod Result
pub mod Task
pub mod Event
pub mod Store
pub mod Worker
pub mod Application
pub mod Http
pub mod Metrics
pub mod UrlCheck
pub mod Client
pub mod Runtime
pub mod System
mod Tests
