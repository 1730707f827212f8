-- ===== src/Oidc.antt =====
-- backend/internal/auth/oidc: the login through an OpenID provider.
pub mod Service
pub mod Accounts
pub mod Callback
pub mod Handler
pub mod Routes
