-- ===== src/Merge.antt =====
-- The merge gate (merge-gate.ts): a card that must be merged ends with one exact commit.
pub mod Urls
pub mod Verdict
pub mod Exact
pub mod Candidate
pub mod Found
pub mod Sources
pub mod Selected
pub mod Plan
pub mod Events
pub mod Identity
pub mod Verified
pub mod Closed
pub mod Approved
