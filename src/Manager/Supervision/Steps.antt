-- ===== src/Manager/Supervision/Steps.antt =====
-- Start, Stop, AdoptOrphans and the rounds of monitorService (internal/manager/manager.go) on one
-- service, as steps that do not overlap: no
-- other operation runs while a start waits for dependencies or a monitor waits out a delay.
use elnssm.Common.{ℕ, ℤ, ◌≡◌, ◌≢◌, true, false, not, elem, is_some}
use elnssm.Model.{is_running}
use elnssm.Manager.State.{System, state_of}
use elnssm.Manager.Start.{StartWorld, start_service}
use elnssm.Process.Wrapper.{Adoption}
use elnssm.Manager.Handover.{adopt_orphan}
use elnssm.Manager.Stop.{StopWorld, stop_service}
use elnssm.Manager.Restart.{RestartWorld}
use elnssm.Manager.Monitor.{MonitorEvent, ctx_done, stop_signalled, monitor_round}
use elnssm.Manager.Supervision.Machine.{View}

abbrev pub view : System → View
view s = record {
  fresh = s.rt.fresh;
  watchers = s.rt.watchers;
  closed = s.rt.closed;
  stop_ch = s.ms.stop_ch;
  running = is_running (state_of s);
  attached = is_some s.ms.wrapper;
}

abbrev pub calm_start : StartWorld → StartWorld
calm_start w = record w { interfere = λ t. t }

abbrev pub calm_restart : RestartWorld → RestartWorld
calm_restart o = record o { interfere = λ t. t }

-- A service is adopted where it does not run, after it is loaded. DetachAll, with which a Guardian
-- ends, is no step: it leaves the state of a service and takes its process away. A round is one of a running watcher. Its select receives from the stop channel only if that is
-- closed, and a delay is cut short just if it is. The lifecycle context is alive.
pub data Step (s : System) : System → Type 0 where
  start : (w : StartWorld) → Step s (start_service (calm_start w) s).0
  stop : (w : StopWorld) → Step s (stop_service w s)
  adopt : (p : ℤ) (a : Adoption) → is_running (state_of s) ≡ false → Step s (adopt_orphan p a s)
  round :
      (o : RestartWorld) (mine : ℕ) (e : MonitorEvent)
      → elem mine s.rt.watchers ≡ true
      → o.slept ≡ not (elem mine s.rt.closed)
      → (e ≡ stop_signalled → elem mine s.rt.closed ≡ true)
      → e ≢ ctx_done
      → Step s (monitor_round (calm_restart o) mine e s)

pub data Reach (s : System) : System → Type 0 where
  here : Reach s s
  next : {t u : System} → Reach s t → Step t u → Reach s u
