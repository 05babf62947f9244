-- ===== src/Manager/Monitor.antt =====
-- internal/manager/manager.go: monitorService, round by round. `mine` is the stop channel that the
-- goroutine took when it started.
pub mod Defs
pub use Defs.{
  leave_unless, MonitorEvent, exited, breach, health_failed, perf_tick, stop_signalled, ctx_done,
  is_always, record_exit,
}
unfoldable pub use Defs.{
  crash_exit, clean_exit, handle_exit, handle_breach, handle_health, on_event, monitor_round,
}
