-- ===== src/Store.antt =====
-- internal/store: the control-plane state, as a driver of the Store interface keeps it.
pub mod Types
pub mod Installs
pub mod Profiles
pub mod Sessions
pub mod Manifests
pub mod Audit
pub mod Accounts
pub mod AuthConfigs
pub mod AppTools
