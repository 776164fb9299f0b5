-- ===== src/Jobs.antt =====
-- The background jobs: `backend/src/fraud_checker/services/jobs.py`.
pub mod Formats
pub mod Kinds
pub mod Enqueue
pub mod Execute
pub mod Dedupe
pub mod Outcome
pub mod Locks
pub mod Lease
pub mod Drain
pub mod Requests
pub mod Ready
pub mod Grown
pub mod Recomputed
pub mod Actions
pub mod Setup
pub mod Bodies
pub mod Refresh
pub mod Kept
pub mod Finished
pub mod Rest
pub mod Drained
pub mod Daily
pub mod Dispatch
pub mod Samples
mod Tests
mod BodiesTests
