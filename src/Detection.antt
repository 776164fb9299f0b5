-- ===== src/Detection.antt =====
-- The detection of suspicious conversions: `suspicious.py`.
pub mod Rules
pub mod Filters
pub mod Detector
pub mod Findings
pub mod Complete
mod Tests
