-- ===== src/RateLimit.antt =====
-- The sliding-window rate limiter of app/services/rate_limit.py.
pub mod Window
pub mod Sweep
