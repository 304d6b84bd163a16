-- ===== src/Application/WorkerTasks.antt =====
-- internal/application/worker_task_service.go: the operations of the worker protocol over the
-- in-memory stores. Each call of the clock and each new id is an argument; metrics are not modelled.
pub mod Tokens
pub mod Operations
pub mod Scheduled
