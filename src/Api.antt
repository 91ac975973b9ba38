-- ===== src/Api.antt =====
-- internal/api: the control plane behind the session middleware. A handler takes the context of its
-- request and what the JSON decoder made of the body, and returns its reply with the state after
-- it.
pub mod Types
pub mod Names
pub mod Profiles
pub mod Apps
pub mod Requests
pub mod Credentials
pub mod AuthConfigs
pub mod Connections
pub mod Users
pub mod AuditLog
pub mod Servers
pub mod Catalog
pub mod Envelope
