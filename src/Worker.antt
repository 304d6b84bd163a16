-- ===== src/Worker.antt =====
-- internal/worker: retry policy, execution errors and retry scheduling.
pub mod Backoff
pub mod ExecutionError
pub mod RetryScheduler
pub mod Reaper
pub mod Processing
pub mod Polling
