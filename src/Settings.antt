-- ===== src/Settings.antt =====
-- The settings of the process and of the rules: `config.py`, `services/settings.py` and
-- `repositories/settings.py`.
pub mod Env
pub mod Acs
pub mod AcsLaws
pub mod Values
pub mod Store
pub mod Cache
pub mod Update
pub mod RoundTrip
pub mod Saved
mod Tests
mod SavedTests
