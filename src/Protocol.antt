-- ===== src/Protocol.antt =====
-- apps/server/src/protocol-repair.ts: replies that break the reporting protocol.
pub mod Repair
pub mod Fallback
pub mod Record
pub mod Bounded
pub mod Helper
pub mod Keeps
pub mod Ends
