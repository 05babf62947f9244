-- ===== src/Guardian.antt =====
-- internal/guardian: the root process, its restart, and its life under the service control manager.
pub mod Defs
pub mod Service
pub mod Restart
pub mod Stopped
