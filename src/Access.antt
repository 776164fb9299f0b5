-- ===== src/Access.antt =====
-- Who may call the API: `api_dependencies.py` and `runtime_guards.py`.
pub mod Guards
pub mod Decisions
pub mod Laws
pub mod Console
pub mod Production
mod Tests
