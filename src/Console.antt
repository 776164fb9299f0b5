-- ===== src/Console.antt =====
-- The console: `services/console.py`.
pub mod Schedules
pub mod Alerts
pub mod Pages
pub mod Actions
pub mod Keys
pub mod Answers
pub mod Upcoming
mod Tests
