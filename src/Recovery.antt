-- ===== src/Recovery.antt =====
-- apps/server/src/card-recovery.ts and completion-guard.ts: how a card that failed goes to a
-- manager, and to a human when no manager is left.
pub mod Store
pub mod Owner
pub mod Request
pub mod Report
pub mod Apply
pub mod Human
pub mod Ownership
pub mod Rounds
pub mod Resumed
pub mod Executor
pub mod Decided
pub mod Answered
pub mod Cycle
