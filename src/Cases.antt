-- ===== src/Cases.antt =====
-- The alert cases: `repositories/suspicious_findings_write.py` and its tables of `db/models.py`.
pub mod Tables
pub mod Store
pub mod Followups
pub mod Reviews
pub mod Replace
pub mod Invariant
pub mod Reach
mod Tests
