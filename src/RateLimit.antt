-- ===== src/RateLimit.antt =====
-- The sliding-window rate limiter: `rate_limit.py`.
pub mod Limiter
pub mod Window
mod Tests
