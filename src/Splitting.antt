-- ===== src/Splitting.antt =====
-- Splitting a card into child cards (card-splitting.ts).
pub mod Cycles
pub mod Acyclic
pub mod Decides
pub mod Plan
pub mod Assess
pub mod Drafted
pub mod Sound
