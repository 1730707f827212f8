-- ===== src/Permission.antt =====
-- backend/internal/permission: the document_permissions table and the roles read from it.
pub mod Repository
pub mod Service
pub mod Access
pub mod Upsert
pub mod Grant
pub mod Revoke
pub mod Handler
