-- ===== src/Repository.antt =====
-- cultureshift/repository.py: the tables of a run and the transactions over them.
pub mod State
pub mod Monad
pub mod Reads
pub mod Runs
pub mod Artifacts
pub mod Operations
pub mod Immutable
pub mod Calls
pub mod Consistent
pub mod Statuses
pub mod Exclusive
pub mod Lifecycle
pub mod Started
pub mod Idempotency
