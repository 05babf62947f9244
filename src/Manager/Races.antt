-- ===== src/Manager/Races.antt =====
-- Stops of internal/manager/manager.go that meet a start or a restart of the same service.
use elnssm.Common.{ℕ, pos, none, is_some, true, false, ◌||◌, elem, ◌≡◌, refl, ap, ◌∙◌, arith}
use elnssm.Model.{ServiceState, is_running, is_starting}
use elnssm.Manager.State.{
  System, state_of, set_state, hook_event, save_runtime_state, emit_event, open_capture,
  start_resource_monitor, stop_resource_monitor, close_capture, signal_stop, stop_health_runner,
  is_empty,
}
use elnssm.Manager.Start.{
  StartWorld, start_service, after_wait, launch_service, default_working_dir,
}
use elnssm.Manager.Stop.{StopWorld, stop_service, tear_down, stop_wrapper}
use elnssm.Manager.Restart.{RestartWorld, do_restart, sleep_then_restart}
use elnssm.Manager.Monitor.{MonitorEvent, monitor_round, leave_unless}

-- Stopping.
tear_down_stopped :
    (w : StopWorld) (s : System)
    → ((tear_down w s).ms.wrapper ≡ none) × (elem s.ms.stop_ch (tear_down w s).rt.closed ≡ true)
unfolding tear_down stop_wrapper signal_stop stop_health_runner stop_resource_monitor close_capture
tear_down_stopped w s = ground arith

-- What the stop of a running or starting service leaves: the state is stopped, the PID 0, there is no process, the stop channel that
-- the monitor took is closed.
pub stop_service_stopped :
    (w : StopWorld) (s : System)
    → is_running (state_of s) || is_starting (state_of s) ≡ true
    → (state_of (stop_service w s) ≡ ServiceState.stopped)
      × ((stop_service w s).ms.config.pid ≡ pos 0)
      × ((stop_service w s).ms.wrapper ≡ none)
      × (elem s.ms.stop_ch (stop_service w s).rt.closed ≡ true)
unfolding stop_service hook_event emit_event save_runtime_state
stop_service_stopped w s r =
    let hooked =
      hook_event s.ms.config.hooks.pre_stop w.pre_stop (set_state ServiceState.stopping s) in
    ground (arith, tear_down_stopped w hooked)

-- After the stop of a running or starting service, a round that a monitor of it begins, on any event,
-- does nothing but end that monitor.
pub stop_service-monitor_round :
    (w : StopWorld) (o : RestartWorld) (mine : ℕ) (e : MonitorEvent) (s : System)
    → is_running (state_of s) || is_starting (state_of s) ≡ true
    → monitor_round o mine e (stop_service w s) ≡ leave_unless mine (stop_service w s, false)
unfolding monitor_round
stop_service-monitor_round w o mine e s r =
    let (a, b, c, d) = stop_service_stopped w s r in ground (arith, c)

do_restart_runs :
    (o : RestartWorld) (s : System)
    → (do_restart o s).1 ≡ true
    → (state_of (do_restart o s).0 ≡ ServiceState.running)
      × (is_some (do_restart o s).0.ms.wrapper ≡ true)
      × ((do_restart o s).0.rt.closed ≡ s.rt.closed)
unfolding do_restart save_runtime_state open_capture start_resource_monitor stop_resource_monitor
    close_capture
do_restart_runs o s h = ground arith

sleep_full :
    (o : RestartWorld) (s : System)
    → o.slept ≡ true
    → sleep_then_restart o s ≡ do_restart o (o.interfere s)
unfolding sleep_then_restart
sleep_full o s h = ground arith

-- A stop that falls into the delay of a restart, just as the delay runs out, is lost: after the stop
-- has finished the monitor restarts the process (if that starts), and the service is running again
-- although the stop channel that its monitor watches is closed.
pub stop_lost_in_delay :
    (o : RestartWorld) (w : StopWorld) (s : System)
    → is_running (state_of s) || is_starting (state_of s) ≡ true
    → o.interfere s ≡ stop_service w s
    → o.slept ≡ true
    → (do_restart o (stop_service w s)).1 ≡ true
    → (state_of (stop_service w s) ≡ ServiceState.stopped)
      × (state_of (sleep_then_restart o s).0 ≡ ServiceState.running)
      × (is_some (sleep_then_restart o s).0.ms.wrapper ≡ true)
      × (elem s.ms.stop_ch (sleep_then_restart o s).0.rt.closed ≡ true)
stop_lost_in_delay o w s r i sl ok =
    let (a, b, c, d) = stop_service_stopped w s r in
    let (x, y, z) = do_restart_runs o (stop_service w s) ok in
    let same : sleep_then_restart o s ≡ do_restart o (stop_service w s) =
      sleep_full o s sl ∙ ap (do_restart o) i in
    rw same (a, x, y, rw z d)

after_wait_met :
    (w : StartWorld) (s : System)
    → is_running (state_of s) ≡ false
    → w.dependencies ≡ none
    → after_wait w s ≡ launch_service w s
unfolding after_wait
after_wait_met w s r d = ground arith

start_service_waits :
    (w : StartWorld) (s : System)
    → is_running (state_of s) ≡ false
    → is_empty s.ms.config.dependencies ≡ false
    → start_service w s
      ≡ after_wait w (w.interfere (set_state ServiceState.starting (default_working_dir w.dir s)))
unfolding start_service default_working_dir
start_service_waits w s r n = ground arith

-- The service while a start waits for its dependencies.
abbrev pub waiting_for : StartWorld → System → System
waiting_for w s = set_state ServiceState.starting (default_working_dir w.dir s)

-- A stop during the wait for dependencies does not cancel the start: if the wait then succeeds, the
-- stopped service is launched.
pub stop_lost_in_wait :
    (w : StartWorld) (v : StopWorld) (s : System)
    → is_running (state_of s) ≡ false
    → is_empty s.ms.config.dependencies ≡ false
    → w.interfere (waiting_for w s) ≡ stop_service v (waiting_for w s)
    → w.dependencies ≡ none
    → (state_of (stop_service v (waiting_for w s)) ≡ ServiceState.stopped)
      × (start_service w s ≡ launch_service w (stop_service v (waiting_for w s)))
stop_lost_in_wait w v s r n i d =
    let waiting = waiting_for w s in
    let (a, _, _, _) = stop_service_stopped v waiting refl in
    (
      a,
      start_service_waits w s r n
          ∙ ap (after_wait w) i
          ∙ after_wait_met w (stop_service v waiting) (ap is_running a) d,
    )
