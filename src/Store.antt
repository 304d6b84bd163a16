-- ===== src/Store.antt =====
-- internal/store: the in-memory stores.
pub mod Sorting
pub mod Select
pub mod Tasks
pub mod Events
pub mod Both
pub mod Effect
pub mod Creation
pub mod Transition
pub mod Cancellation
pub mod Query
pub mod Stats
