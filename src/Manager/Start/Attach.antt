-- ===== src/Manager/Start/Attach.antt =====
-- internal/manager/manager.go: what startService does once the process runs.
use elnssm.Common.{ℕ, some}
use elnssm.Model.{ServiceState, EventType}
use elnssm.Process.Wrapper.{Wrapper}
use elnssm.Manager.State.{
  System, save_runtime_state, emit_event, open_capture, start_health_runner, start_resource_monitor,
  start_monitor_service,
}

-- ms.Wrapper, State, PID and StartedAt for a process that has started at time `now`.
abbrev pub now_running : Wrapper → ℕ → System → System
now_running w now s = record s {
  ms = record s.ms {
    wrapper = some w;
    config = record s.ms.config {
      state = ServiceState.running;
      pid = w.pid;
      started_at = some now;
    };
  };
}

unfoldable pub attach : Wrapper → ℕ → System → System
attach w now s =
    let captured = open_capture (now_running w now s) in
    let saved = emit_event EventType.service_started (save_runtime_state captured) in
    start_monitor_service (start_resource_monitor (start_health_runner saved))
