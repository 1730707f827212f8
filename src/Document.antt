-- ===== src/Document.antt =====
-- backend/internal/document: files, documents with their versions, and who may use them.
pub mod File
pub mod Filename
pub mod Repository
pub mod Service
pub mod Versions
pub mod Store
pub mod Accessible
pub mod Deletion
pub mod Authority
pub mod Saving
pub mod Handler
pub mod Routes
