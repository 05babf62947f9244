-- ===== src/Manager/Supervision/Stopping.antt =====
-- stopService (internal/manager/manager.go) as moves of the abstract machine.
use elnssm.Common.{◌∷◌, false, ◌||◌, elem, ◌≡◌, inl, inr, arith, Bool-cases, ◌∙◌, ap, if◌then◌else◌}
use elnssm.Model.{ServiceState, is_running, is_starting}
use elnssm.Manager.State.{
  System, state_of, set_state, with_config, hook_event, signal_stop, stop_health_runner,
  stop_resource_monitor, close_capture,
}
use elnssm.Manager.Stop.{StopWorld, stop_service, tear_down, stop_wrapper, clear_metrics}
use elnssm.Manager.Supervision.Machine.{View, Move, halt, stay}
use elnssm.Manager.Supervision.Steps.{view}
use elnssm.Manager.Supervision.Quiet.{view-hook_event, seen}

abbrev halted : View → View
halted v = record v {
  closed = if elem v.stop_ch v.closed then v.closed else v.stop_ch ∷ v.closed;
  running = false;
  attached = false;
}

tear_down-view :
    (w : StopWorld) (s : System)
    → view (with_config clear_metrics (tear_down w s)) ≡ halted (view s)
unfolding tear_down stop_wrapper signal_stop stop_health_runner stop_resource_monitor close_capture
tear_down-view w s = ground arith

pub stop_service-Move : (w : StopWorld) (s : System) → Move (view s) (view (stop_service w s))
unfolding stop_service
stop_service-Move w s = elim (Bool-cases (is_running (state_of s) || is_starting (state_of s))) [
  | inl e ↦
      let stopping = set_state ServiceState.stopping s in
      let hooked = hook_event s.ms.config.hooks.pre_stop w.pre_stop stopping in
      halt (
        rw e (
          simp seen (
            tear_down-view w hooked
            ∙ ap halted (view-hook_event s.ms.config.hooks.pre_stop w.pre_stop stopping))))
  | inr e ↦ stay (rw e)
]
