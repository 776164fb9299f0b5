-- ===== src/Retention.antt =====
-- The retention of old data: `services/lifecycle.py`.
pub mod Policy
pub mod Purge
pub mod Ages
pub mod Exact
pub mod Evidence
mod Tests
