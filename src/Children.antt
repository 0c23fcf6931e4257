-- ===== src/Children.antt =====
-- When a card may be completed: the reviewer's gate and the policy on its child cards (dispatch.ts).
pub mod Policy
pub mod Blocking
