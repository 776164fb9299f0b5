-- ===== src/Ingestion.antt =====
-- The ingestion of click and conversion logs: `repositories/ingestion.py` and `ingestion.py`.
pub mod Logs
pub mod Repository
pub mod Merge
pub mod Totals
pub mod Overlap
pub mod Repeat
pub mod Reingest
pub mod Visitors
pub mod Agreement
pub mod Paging
pub mod Ingestors
pub mod Runs
pub mod Samples
mod Tests
