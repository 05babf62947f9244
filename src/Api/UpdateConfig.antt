-- ===== src/Api/UpdateConfig.antt =====
-- internal/api/handlers_config.go: handleUpdateConfig.
pub mod Defs
pub mod Sealing
pub mod Disk
