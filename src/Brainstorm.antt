-- ===== src/Brainstorm.antt =====
-- Brainstorm rounds (brainstorm.ts): whom a question goes to, and when the round closes.
pub mod Plan
pub mod Targets
pub mod Outcome
