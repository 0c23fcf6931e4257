-- ===== src/Examples.antt =====
-- The theorems at concrete inputs, one file for each part.
mod Cards
mod Reviews
mod Reports
mod Handovers
mod Rounds
mod Decisions
mod Splits
mod Limits
mod Offices
mod Machines
mod Merges
mod Replies
