-- ===== src/User.antt =====
-- backend/internal/user: the accounts that others may search for.
pub mod Repository
pub mod Service
pub mod Pages
