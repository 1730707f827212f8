-- ===== src/Share.antt =====
-- backend/internal/share: links that open a document without an account.
pub mod Repository
pub mod Service
pub mod Access
pub mod Links
pub mod Disabling
pub mod Saving
pub mod Handler
