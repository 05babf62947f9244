-- ===== src/Manager/Stop.antt =====
-- internal/manager/manager.go: stopService.
use elnssm.Common.{◌∷◌, pos, String, Option, none, some, not, ◌||◌, if◌then◌else◌}
use elnssm.Model.{Float64, Service, ServiceState, EventType, is_running, is_starting}
use elnssm.Process.Wrapper as Wrapper
use elnssm.Process.Wrapper.{Wrapper, Shutdown}
use elnssm.Manager.State.{
  System, state_of, with_config, set_state, save_runtime_state, emit_event, hook_event, signal_stop,
  stop_health_runner, stop_resource_monitor, close_capture,
}

-- The float64 0.
abbrev pub float_zero : Float64
float_zero = record { bits = 0 }

-- Wrapper.Stop, whose error is logged, and Close.
abbrev pub stop_and_close : Shutdown → Wrapper → Wrapper
stop_and_close o w = Wrapper.close (Wrapper.stop w o).wrapper

unfoldable pub stop_wrapper : Shutdown → System → System
stop_wrapper o s = elim s.ms.wrapper [
  | none ↦ s
  | some w ↦ record {
    ms = record s.ms { wrapper = none };
    rt = record s.rt { released = stop_and_close o w ∷ s.rt.released };
  }
]

abbrev pub clear_metrics : Service → Service
clear_metrics c = record c {
  state = ServiceState.stopped;
  pid = pos 0;
  cpu_percent = float_zero;
  memory_bytes = pos 0;
}

-- The errors of the two hooks, and the answers to Wrapper.Stop.
pub record StopWorld : Type 0 where
  pub pre_stop : Option String
  pub post_stop : Option String
  pub shutdown : Shutdown

unfoldable pub tear_down : StopWorld → System → System
tear_down w s =
    close_capture
      (stop_wrapper w.shutdown (stop_resource_monitor (stop_health_runner (signal_stop s))))

unfoldable pub stop_service : StopWorld → System → System
stop_service w s =
    if not (is_running (state_of s) || is_starting (state_of s))
    then s
    else let hooks = s.ms.config.hooks in
      let stopping = hook_event hooks.pre_stop w.pre_stop (set_state ServiceState.stopping s) in
      let down = with_config clear_metrics (tear_down w stopping) in
      let saved = emit_event EventType.service_stopped (save_runtime_state down) in
      hook_event hooks.post_stop w.post_stop saved
