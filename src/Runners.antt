-- ===== src/Runners.antt =====
-- Whether a machine is there that can run an agent.
pub mod Availability
pub mod Cached
