-- ===== src/Local.antt =====
-- backend/internal/auth/local: local accounts and their sessions.
pub mod Repository
pub mod Email
pub mod Password
pub mod Service
pub mod Sessions
pub mod Login
pub mod Admin
