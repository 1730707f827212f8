-- ===== src/Audit.antt =====
-- backend/internal/audit: the log of who did what.
pub mod Repository
pub mod Service
pub mod Entries
pub mod Handler
pub mod Paging
