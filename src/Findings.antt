-- ===== src/Findings.antt =====
-- The recomputation of findings: `services/findings.py`, with the risk of `api_presenters.py`.
pub mod Damage
pub mod Accounts
pub mod Risk
pub mod Levels
pub mod Reasons
pub mod Recompute
pub mod Stored
pub mod Samples
mod Tests
