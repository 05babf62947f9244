-- ===== src/Manager.antt =====
-- internal/manager: the lifecycle of managed services.
pub mod State
pub mod Dependencies
pub mod Registry
pub mod Policy
pub mod Start
pub mod Stop
pub mod Restart
pub mod Monitor
pub mod Handover
pub mod Leaks
pub mod Orphans
pub mod Limits
pub mod Races
pub mod Supervision
pub mod Everyone
