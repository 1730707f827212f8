-- ===== src/Office.antt =====
-- backend/internal/office: the office documents and the tokens of their editors.
pub mod Token
pub mod Editor
pub mod Signed
pub mod Live
pub mod Saving
pub mod Limited
pub mod Service
pub mod Handler
pub mod Routes
