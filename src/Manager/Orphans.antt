-- ===== src/Manager/Orphans.antt =====
-- What a hand-over of a process from one Guardian to the next leaves (internal/manager/manager.go).
use elnssm.Common.{ℤ, pos, none, some, true, elem, is_some, ◌≡◌, ◌⊎◌, arith}
use elnssm.Model.{ServiceState, is_running}
use elnssm.Process.Wrapper.{Wrapper, Adoption}
use elnssm.Manager.State.{
  System, is_armed, state_of, save_runtime_state, signal_stop, stop_health_runner,
  stop_resource_monitor, close_capture, start_health_runner, start_resource_monitor,
  start_monitor_service,
}
use elnssm.Manager.Handover.{detach_service, adopt_orphan, ensure_resource_monitor}
use elnssm.Manager.Leaks.{parts, IsTracked, IsIdle}

-- Detaching a running service hands over the PID of its process, ends its capture, its resource monitor
-- and its health runner, whose Run has set its cancel function, closes its monitor's stop channel and lets go of the wrapper.
pub detach_service-IsIdle :
    (s : System) (w : Wrapper)
    → IsTracked (parts s)
    → is_armed (parts s).runner (parts s).armed ≡ true
    → is_running (state_of s) ≡ true
    → s.ms.wrapper ≡ some w
    → IsIdle (parts (detach_service s).0)
      × ((detach_service s).1 ≡ some w.pid)
      × ((detach_service s).0.ms.wrapper ≡ none)
      × (elem s.ms.stop_ch (detach_service s).0.rt.closed ≡ true)
unfolding detach_service signal_stop stop_health_runner stop_resource_monitor close_capture
detach_service-IsIdle s w t a r e = ground arith

-- Adopting an orphan, where no capture, resource monitor or health runner runs, either makes the service run, with the orphan's
-- PID and a process, or leaves it stopped with the PID 0. What then runs is tracked.
pub adopt_orphan-IsTracked :
    (p : ℤ) (a : Adoption) (s : System)
    → IsIdle (parts s)
    → IsTracked (parts (adopt_orphan p a s))
      × ((state_of (adopt_orphan p a s) ≡ ServiceState.running)
            × ((adopt_orphan p a s).ms.config.pid ≡ p)
            × (is_some (adopt_orphan p a s).ms.wrapper ≡ true)
          ⊎ (state_of (adopt_orphan p a s) ≡ ServiceState.stopped)
            × ((adopt_orphan p a s).ms.config.pid ≡ pos 0))
unfolding adopt_orphan ensure_resource_monitor save_runtime_state start_health_runner
    start_resource_monitor start_monitor_service
adopt_orphan-IsTracked p a s i = ground arith
