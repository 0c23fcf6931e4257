-- ===== src/Authority.antt =====
-- Who holds which authority in a company, and who supervises whom.
pub mod Roles
pub mod Organization
pub mod Granted
pub mod Candidates
pub mod Supervised
