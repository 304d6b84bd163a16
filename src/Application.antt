-- ===== src/Application.antt =====
-- internal/application: the services behind the HTTP handlers.
pub mod Codec
pub mod WorkerTasks
pub mod TaskService
pub mod TaskLists
pub mod TaskStats
pub mod TaskDetail
