-- ===== src/Model.antt =====
-- The rows of the database, a module for each package that declares them.
pub mod User
pub mod Document
pub mod Permission
pub mod Share
pub mod Collab
pub mod Audit
pub mod Office
