-- ===== src/Panel.antt =====
-- apps/server/src/review-panel.ts: the rules of the blind review panel. The children hold the
-- findings, who sits on a panel, how findings merge, how rounds are decided, and the proofs.
pub mod Findings
pub mod Compose
pub mod Merge
pub mod Rounds
