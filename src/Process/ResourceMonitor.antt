-- ===== src/Process/ResourceMonitor.antt =====
-- internal/process/resource_monitor.go: the evaluation of a process's resource samples.
pub mod Defs
pub mod Sample
pub mod Breaches
