-- ===== src/Auth.antt =====
-- internal/auth: who a request comes from, and what it may do.
pub mod Session
pub mod Scopes
pub mod Flow
pub mod Broker
pub mod Oidc
