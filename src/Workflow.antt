-- ===== src/Workflow.antt =====
-- packages/shared/src/index.ts: the card workflow. The children hold the tables, the functions
-- over them and what is proved of them.
pub mod Status
pub mod Transition
pub mod Agreement
pub mod Steps
pub mod Spelling
pub mod Guards
