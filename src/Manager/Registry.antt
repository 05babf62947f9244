-- ===== src/Manager/Registry.antt =====
-- internal/manager/manager.go: the manager's map of services, with its files, store and schedules.
pub mod Defs
pub mod Schedules
pub mod Jobs
pub mod Startup
