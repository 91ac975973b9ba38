-- ===== src/Gateway.antt =====
-- internal/gateway: backends, their sandboxes, and the profile endpoints.
pub mod SpawnGate
pub mod Resolver
pub mod ProfileHost
pub mod AuditingResolver
pub mod Bundle
pub mod Serve
