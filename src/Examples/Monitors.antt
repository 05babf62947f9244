-- ===== src/Examples/Monitors.antt =====
-- The abstract machine's theorems on a run of the web service.
use elnssm.Common.{refl, arith}
use elnssm.Manager.Monitor.{monitor_round, exited}
use elnssm.Manager.Supervision.Machine.{Move, IsSupervised}
use elnssm.Manager.Supervision.Steps.{view, calm_restart, round}
use elnssm.Manager.Supervision.Refinement.{Step-Move}
use elnssm.Examples.Data.{running_system, restart_world, crash}

running_system-IsSupervised : IsSupervised (view running_system)
running_system-IsSupervised = record {
  fresh_stop_ch = omega arith;
  fresh_closed = λ c h. ground (arith, h);
  watched = λ h. refl;
  open_ch = λ h. refl;
  has_process = λ h. refl;
  single = λ m h. ground (arith, h);
}

-- The process crashes, and the monitor restarts it.
Step-Move_example :
    Move
      (view running_system)
      (view (monitor_round (calm_restart restart_world) 3 (exited crash) running_system))
Step-Move_example =
    Step-Move {s = running_system}
      (round restart_world 3 (exited crash) refl refl (λ e. ground (arith, e))
        (λ e. ground (arith, e)))
      running_system-IsSupervised
