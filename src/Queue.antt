-- ===== src/Queue.antt =====
-- The job queue: `backend/src/fraud_checker/job_status_models.py`, `job_status_queue.py` and
-- `job_status_summary.py`.
pub mod Run
pub mod Store
pub mod Invariant
pub mod Steps
pub mod Refusals
pub mod Reach
pub mod Acquire
pub mod First
pub mod Handover
pub mod Retry
pub mod Purge
pub mod Report
pub mod Agreement
mod Tests
