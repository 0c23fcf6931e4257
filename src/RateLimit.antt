-- ===== src/RateLimit.antt =====
-- The request limiter of the server (rate-limit.ts).
pub mod Policy
pub mod Buckets
pub mod Spoofing
pub mod Windows
pub mod Sweeping
