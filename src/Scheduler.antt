-- ===== src/Scheduler.antt =====
-- internal/scheduler: cron jobs of the services. robfig/cron is a parameter.
pub mod Defs
pub mod Ownership
pub mod Jobs
pub mod Kept
