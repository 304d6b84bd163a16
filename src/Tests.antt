-- ===== src/Tests.antt =====
-- The theorems of the modules at concrete inputs, and runs of the modelled code on them.
mod Fixtures
mod Tasks
mod Stores
mod Lists
mod Details
mod Services
mod Server
mod Working
mod Runtimes
mod Transport
mod Sessions
mod Batches
