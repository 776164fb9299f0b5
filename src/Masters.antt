-- ===== src/Masters.antt =====
-- `repositories/master.py`: the names of the media, promotions and users that the ACS knows.
pub mod Tables
pub mod Store
pub mod Synced
mod Tests
