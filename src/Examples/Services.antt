-- ===== src/Examples/Services.antt =====
-- The manager's theorems on starts, stops and restarts of the web service.
use elnssm.Common.{
  [], ◌∷◌, some, suc, ℤ, pos, negsuc, ◌≡◌, ◌≤ℤ◌, ◌⊎◌, true, false, elem, is_some, refl, arith,
}
use elnssm.Model.{ServiceState}
use elnssm.Manager.State.{
  arm_health_runner, System, state_of, save_runtime_state, hook_event, emit_event, close_capture,
  stop_resource_monitor, stop_health_runner, signal_stop,
}
use elnssm.Manager.Start.{StartWorld}
use elnssm.Manager.Stop.{stop_service, tear_down, stop_wrapper}
use elnssm.Manager.Restart.{RestartWorld, do_restart, sleep_then_restart}
use elnssm.Manager.Monitor.{crash_exit, monitor_round, exited, leave_unless}
use elnssm.Manager.Leaks.{parts, IsTracked, IsIdle, stop_service-IsIdle}
use elnssm.Manager.Limits.{count_of, by_failure, crash_exit_limit}
use elnssm.Manager.Races.{stop_service-monitor_round, stop_lost_in_delay}
use elnssm.Model.{Service, RestartMode}
use elnssm.Process.Wrapper as Wrapper
use elnssm.Process.Wrapper.{Wrapper}
use elnssm.Examples.Data.{
  zero_float, web, policy, stopped_system, running_system, start_world, stop_world, restart_world,
  crash, doubling,
}

stopped_system-IsIdle : IsIdle (parts stopped_system)
stopped_system-IsIdle = record {
  no_cancel = refl;
  no_capture = refl;
  no_runner = refl;
  no_monitors = refl;
  no_captures = refl;
  no_runners = refl;
}

-- The same with a health runner whose Run has set its cancel function.
abbrev checked_system : System
checked_system = arm_health_runner (record running_system {
  ms = record running_system.ms { health_runner = some 9 };
  rt = record running_system.rt { runners = 9 ∷ [] };
})

checked_system-IsTracked : IsTracked (parts checked_system)
checked_system-IsTracked = record { monitors = refl; captures = refl; runners = refl }

stop_service-IsIdle_example : IsIdle (parts (stop_service stop_world checked_system))
stop_service-IsIdle_example =
    stop_service-IsIdle stop_world checked_system checked_system-IsTracked refl refl

stop_service-monitor_round_example :
    monitor_round restart_world 3 (exited crash) (stop_service stop_world running_system)
    ≡ leave_unless 3 (stop_service stop_world running_system, false)
stop_service-monitor_round_example =
    stop_service-monitor_round stop_world restart_world 3 (exited crash) running_system refl

-- Somebody stops the service during the delay.
abbrev interrupted : RestartWorld
interrupted = record restart_world { interfere = stop_service stop_world }

restart_ok : (do_restart interrupted (stop_service stop_world running_system)).1 ≡ true
unfolding do_restart Wrapper.start Wrapper.new_wrapper stop_service tear_down save_runtime_state
    hook_event emit_event close_capture stop_wrapper stop_resource_monitor stop_health_runner
    signal_stop
restart_ok = refl

stop_lost_in_delay_example :
    (state_of (stop_service stop_world running_system) ≡ ServiceState.stopped)
    × (state_of (sleep_then_restart interrupted running_system).0 ≡ ServiceState.running)
    × (is_some (sleep_then_restart interrupted running_system).0.ms.wrapper ≡ true)
    × (elem 3 (sleep_then_restart interrupted running_system).0.rt.closed ≡ true)
stop_lost_in_delay_example =
    stop_lost_in_delay interrupted stop_world running_system refl refl refl restart_ok

-- Somebody stops the service during the wait.
abbrev interrupted_start : StartWorld
interrupted_start = record start_world { interfere = stop_service stop_world }

crash_exit_limit_example :
    (count_of (crash_exit restart_world crash running_system).0 ≡ suc (count_of running_system))
      × (pos (count_of (crash_exit restart_world crash running_system).0) ≤ℤ pos 3)
    ⊎ (count_of (crash_exit restart_world crash running_system).0 ≡ count_of running_system)
      × (pos 3 ≤ℤ pos (count_of running_system))
      × (state_of (crash_exit restart_world crash running_system).0 ≡ ServiceState.failed)
      × ((crash_exit restart_world crash running_system).1 ≡ false)
crash_exit_limit_example =
    crash_exit_limit restart_world crash running_system (λ t. refl) (by_failure refl (ground arith))

-- A service that is never to be restarted.
abbrev one_shot : System
one_shot = record running_system {
  ms = record running_system.ms {
    config = record running_system.ms.config {
      restart_policy = record policy { mode = RestartMode.never };
    };
  };
}

restart_always_ok : (t : System) → (do_restart restart_world t).1 ≡ true
unfolding do_restart Wrapper.start Wrapper.new_wrapper
restart_always_ok t = ground arith

-- The first delay is above the bound.
abbrev hasty : Service
hasty = record web { restart_policy = record policy { max_backoff = pos 500 } }

doubling_grows : (d : ℤ) → pos 0 ≤ℤ d → d ≤ℤ doubling.mul_duration d zero_float
doubling_grows (pos n) h = ground arith
doubling_grows (negsuc n) h = ground (arith, h)
