-- ===== src/Manager/Handover.antt =====
-- internal/manager/manager.go: one service's part of DetachAll and of AdoptOrphans, which hand the
-- running processes from one Guardian to the next.
use elnssm.Common.{ℤ, pos, Option, none, some, is_some, ◌∷◌, if◌then◌else◌}
use elnssm.Model.{Service, ServiceState, is_running}
use elnssm.Process.Wrapper as Wrapper
use elnssm.Process.Wrapper.{Wrapper, Adoption}
use elnssm.Manager.State.{
  System, state_of, with_config, save_runtime_state, signal_stop, stop_health_runner,
  stop_resource_monitor, close_capture, start_health_runner, start_resource_monitor,
  start_monitor_service,
}

abbrev release_detached : Wrapper → System → System
release_detached w s = record {
  ms = record s.ms { wrapper = none };
  rt = record s.rt { released = Wrapper.detach w ∷ s.rt.released };
}

-- The PID goes into the map of orphans.
unfoldable pub detach_service : System → System × Option ℤ
detach_service s =
    if is_running (state_of s)
    then elim s.ms.wrapper [
      | none ↦ (s, none)
      | some w ↦ (
        release_detached w
            (signal_stop (stop_resource_monitor (stop_health_runner (close_capture s)))),
        some w.pid,
      )
    ]
    else (s, none)

-- A resource monitor is started only where the field is empty.
unfoldable pub ensure_resource_monitor : System → System
ensure_resource_monitor s = if is_some s.ms.resource_monitor then s else start_resource_monitor s

abbrev pub now_adopted : Wrapper → ℤ → System → System
now_adopted w p s = record s {
  ms = record s.ms {
    wrapper = some w;
    config = record s.ms.config { state = ServiceState.running; pid = p };
  };
}

abbrev not_adopted : Service → Service
not_adopted c = record c { state = ServiceState.stopped; pid = pos 0 }

unfoldable pub adopt_orphan : ℤ → Adoption → System → System
adopt_orphan p a s =
    let (wrapper, error) = Wrapper.adopt (Wrapper.new_wrapper s.ms.config) p a in
    elim error [
      | some e ↦ save_runtime_state (with_config not_adopted s)
      | none ↦ ensure_resource_monitor (
          start_health_runner
            (start_monitor_service (save_runtime_state (now_adopted wrapper p s))))
    ]
