-- ===== src/Registry.antt =====
-- internal/registry: installing servers from the signed index.
pub mod Installer
pub mod Uninstaller
