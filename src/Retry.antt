-- ===== src/Retry.antt =====
-- Retries of reviews and messages (run-retry.ts).
pub mod Ready
pub mod Complete
pub mod Keeps
pub mod Limits
pub mod Once
