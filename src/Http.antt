-- ===== src/Http.antt =====
-- What the HTTP handlers share: backend/internal/api and backend/internal/middleware.
pub mod Response
pub mod Middleware
pub mod Gate
