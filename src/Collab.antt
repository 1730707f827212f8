-- ===== src/Collab.antt =====
-- backend/internal/markdown/collab: rooms of clients that edit one Markdown document.
pub mod Repository
pub mod Room
pub mod Service
pub mod Broadcast
pub mod Readonly
pub mod Recovery
pub mod Persist
pub mod Synced
pub mod Updates
pub mod Closing
