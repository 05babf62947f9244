-- ===== src/Manager/Monitor/Defs.antt =====
-- internal/manager/manager.go: the rounds of monitorService. A round returns whether the goroutine
-- goes on. The periodic resource sample goes to the store only and changes nothing here.
use elnssm.Common.{
  ℕ, pos, eqb_ℤ, none, some, is_some, Bool, true, false, not, ◌||◌, elem, delete, if◌then◌else◌,
}
use elnssm.Model.{Service, ServiceState, EventType, RestartMode}
use elnssm.Process.Wrapper.{ExitResult}
use elnssm.Manager.State.{System, with_config, set_state, save_runtime_state, emit_event}
use elnssm.Manager.Stop.{clear_metrics}
use elnssm.Manager.Restart.{RestartWorld, count_restart, sleep_then_restart, restart_after_breach}
use elnssm.Manager.Policy.{should_restart}

-- What the select receives.
pub data MonitorEvent : Type 0 where
  exited : ExitResult → MonitorEvent
  breach health_failed perf_tick stop_signalled ctx_done : MonitorEvent

-- An event follows a restart that succeeded.
abbrev pub announce : System × Bool → System × Bool
announce (s, true) = (emit_event EventType.service_restarted s, true)
announce (s, false) = (s, false)

abbrev pub record_exit : ExitResult → Service → Service
record_exit r c = elim r.error [
  | none ↦ record c { last_exit_code = r.exit_code }
  | some e ↦ record c { last_exit_code = r.exit_code; last_error = e }
]

unfoldable pub crash_exit : RestartWorld → ExitResult → System → System × Bool
crash_exit o r s =
    let crashed = emit_event EventType.service_crashed (with_config (record_exit r) s) in
    if should_restart crashed.ms.config
    then announce (sleep_then_restart o (count_restart crashed))
    else (
      emit_event EventType.restart_limit_reached
          (save_runtime_state (set_state ServiceState.failed crashed)),
      false,
    )

abbrev pub is_always : RestartMode → Bool
is_always RestartMode.always = true
is_always _ = false

unfoldable pub clean_exit : RestartWorld → System → System × Bool
clean_exit o s =
    if is_always s.ms.config.restart_policy.mode
    then sleep_then_restart o (count_restart s)
    else (save_runtime_state (with_config clear_metrics s), false)

unfoldable pub handle_exit : RestartWorld → ℕ → ExitResult → System → System × Bool
handle_exit o mine r s =
    if elem mine s.rt.closed
    then (s, false)
    else if r.crashed || not (eqb_ℤ r.exit_code (pos 0))
    then crash_exit o r s
    else clean_exit o s

unfoldable pub handle_breach : RestartWorld → System → System × Bool
handle_breach o s =
    announce (restart_after_breach o (emit_event EventType.resource_threshold_breached s))

unfoldable pub handle_health : RestartWorld → System → System × Bool
handle_health o s =
    if s.ms.config.restart_policy.restart_on_health_fail
    then announce (restart_after_breach o (emit_event EventType.health_check_failed s))
    else (s, true)

unfoldable pub on_event : RestartWorld → ℕ → MonitorEvent → System → System × Bool
on_event o mine (exited r) s = handle_exit o mine r s
on_event o mine breach s = handle_breach o s
on_event o mine health_failed s = handle_health o s
on_event o mine perf_tick s = (s, true)
on_event o mine stop_signalled s = (s, false)
on_event o mine ctx_done s = (s, false)

-- A goroutine that does not go on is no watcher any more.
abbrev pub leave_unless : ℕ → System × Bool → System
leave_unless mine (s, true) = s
leave_unless mine (s, false) = record s {
  rt = record s.rt { watchers = delete mine s.rt.watchers };
}

unfoldable pub monitor_round : RestartWorld → ℕ → MonitorEvent → System → System
monitor_round o mine e s =
    if is_some s.ms.wrapper
    then leave_unless mine (on_event o mine e s)
    else leave_unless mine (s, false)
