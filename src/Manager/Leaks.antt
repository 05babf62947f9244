-- ===== src/Manager/Leaks.antt =====
-- Whether the goroutines and captures of internal/manager are still reachable from their service.
use elnssm.Common.{
  ℕ, List, [], ◌∷◌, Option, none, some, true, false, length, ◌≡◌, ◌≢◌, refl, arith, String, ◌||◌,
}
use elnssm.Model.{ServiceState, EventType, LifecycleHook, is_running, is_starting}
use elnssm.Process.Wrapper as Wrapper
use elnssm.Process.Wrapper.{Wrapper, ExitResult, Launch, Shutdown}
use elnssm.Manager.State.{
  System, is_armed, state_of, set_state, hook_event, emit_event, save_runtime_state, signal_stop,
  stop_health_runner, stop_resource_monitor, close_capture, open_capture, start_resource_monitor,
  start_health_runner, start_monitor_service,
}
use elnssm.Manager.Start.{
  StartWorld, spawn_service, launch_service, start_service, attach, default_working_dir, after_wait,
}
use elnssm.Manager.Stop.{StopWorld, stop_service, tear_down, stop_wrapper}
use elnssm.Manager.Restart.{
  RestartWorld, do_restart, restart_after_breach, sleep_then_restart, stop_in_place, count_restart,
}
use elnssm.Manager.Monitor.{clean_exit, is_always}

abbrev pub to_list : Option ℕ → List ℕ
to_list none = []
to_list (some i) = i ∷ []

-- The fields that name what runs on the service's behalf, and what does run.
pub record Parts : Type 0 where
  pub cancel : Option ℕ
  pub capture : Option ℕ
  pub runner : Option ℕ
  pub monitors : List ℕ
  pub captures : List ℕ
  pub runners : List ℕ
  pub armed : List ℕ

abbrev pub parts : System → Parts
parts s = record {
  cancel = s.ms.resource_cancel;
  capture = s.ms.capture;
  runner = s.ms.health_runner;
  monitors = s.rt.monitors;
  captures = s.rt.captures;
  runners = s.rt.runners;
  armed = s.rt.armed;
}

-- What runs is what the fields name.
pub record IsTracked (p : Parts) : Type 0 where
  pub monitors : p.monitors ≡ to_list p.cancel
  pub captures : p.captures ≡ to_list p.capture
  pub runners : p.runners ≡ to_list p.runner

-- Nothing runs.
pub record IsIdle (p : Parts) : Type 0 where
  pub no_cancel : p.cancel ≡ none
  pub no_capture : p.capture ≡ none
  pub no_runner : p.runner ≡ none
  pub no_monitors : p.monitors ≡ []
  pub no_captures : p.captures ≡ []
  pub no_runners : p.runners ≡ []

-- The steps that leave the goroutines alone.
parts-emit_event : (e : EventType) (s : System) → parts (emit_event e s) ≡ parts s
unfolding emit_event
parts-emit_event e s = refl

parts-hook_event :
    (h : Option LifecycleHook) (o : Option String) (s : System) → parts (hook_event h o s) ≡ parts s
unfolding hook_event emit_event
parts-hook_event h o s = ground arith

parts-save : (s : System) → parts (save_runtime_state s) ≡ parts s
unfolding save_runtime_state
parts-save s = ground arith

parts-stop_in_place : (o : Shutdown) (s : System) → parts (stop_in_place o s) ≡ parts s
unfolding stop_in_place
parts-stop_in_place o s = ground arith

parts-default_working_dir :
    (dir : String → String) (s : System) → parts (default_working_dir dir s) ≡ parts s
unfolding default_working_dir
parts-default_working_dir dir s = ground arith

ruleset quiet =
    (parts-emit_event, parts-hook_event, parts-save, parts-stop_in_place, parts-default_working_dir)

tear_down-IsIdle :
    (w : StopWorld) (s : System)
    → IsTracked (parts s)
    → is_armed (parts s).runner (parts s).armed ≡ true
    → IsIdle (parts (tear_down w s))
unfolding tear_down stop_wrapper signal_stop stop_health_runner stop_resource_monitor close_capture
tear_down-IsIdle w s t a = ground arith

-- If the resource monitor, the capture and the health runner of a running or starting service are just
-- those that it names, and the health runner's Run has set its cancel function, then a stop ends all
-- three and clears the fields.
pub stop_service-IsIdle :
    (w : StopWorld) (s : System)
    → IsTracked (parts s)
    → is_armed (parts s).runner (parts s).armed ≡ true
    → is_running (state_of s) || is_starting (state_of s) ≡ true
    → IsIdle (parts (stop_service w s))
unfolding stop_service
stop_service-IsIdle w s t a r =
    rw r (simp quiet (tear_down-IsIdle w _ (simp quiet t) (simp quiet a)))

-- A restart of a service whose goroutines are tracked leaves tracked what then runs, whether the new
-- process starts or not.
pub do_restart-IsTracked :
    (o : RestartWorld) (s : System) → IsTracked (parts s) → IsTracked (parts (do_restart o s).0)
unfolding do_restart save_runtime_state open_capture start_resource_monitor stop_resource_monitor
    close_capture
do_restart-IsTracked o s t = ground arith

attach-IsTracked :
    (w : Wrapper) (now : ℕ) (s : System) → IsIdle (parts s) → IsTracked (parts (attach w now s))
unfolding attach save_runtime_state emit_event open_capture start_resource_monitor
    start_health_runner start_monitor_service
attach-IsTracked w now s i = ground arith

IsIdle→IsTracked : (p : Parts) → IsIdle p → IsTracked p
IsIdle→IsTracked p i = ground arith

-- Start either attaches the new process or leaves the goroutines as they are.
spawn_service-IsTracked :
    (w : StartWorld) (s : System) → IsIdle (parts s) → IsTracked (parts (spawn_service w s).0)
unfolding spawn_service
spawn_service-IsTracked w s i =
    let wrapper = (Wrapper.start (Wrapper.new_wrapper s.ms.config) w.launch).0 in
    ground (arith, attach-IsTracked wrapper w.now s i, IsIdle→IsTracked (parts s) i)

launch_service-IsTracked :
    (w : StartWorld) (s : System) → IsIdle (parts s) → IsTracked (parts (launch_service w s).0)
unfolding launch_service
launch_service-IsTracked w s i =
    let hooked = hook_event s.ms.config.hooks.pre_start w.pre_start s in
    let idle : IsIdle (parts hooked) = simp quiet i in
    ground (arith, spawn_service-IsTracked w hooked idle, IsIdle→IsTracked (parts hooked) idle)

after_wait-IsTracked :
    (w : StartWorld) (s : System) → IsIdle (parts s) → IsTracked (parts (after_wait w s).0)
unfolding after_wait save_runtime_state
after_wait-IsTracked w s i =
    ground (arith, launch_service-IsTracked w s i, IsIdle→IsTracked (parts s) i)

-- Starting a service on whose behalf nothing runs leaves tracked what then runs, on every branch,
-- if what happens while the lock is released starts nothing for it.
pub start_service-IsTracked :
    (w : StartWorld) (s : System)
    → ((t : System) → IsIdle (parts t) → IsIdle (parts (w.interfere t)))
    → IsIdle (parts s)
    → IsTracked (parts (start_service w s).0)
unfolding start_service
start_service-IsTracked w s keep i =
    let starting = set_state ServiceState.starting (default_working_dir w.dir s) in
    let idle : IsIdle (parts starting) = simp quiet i in
    ground (
      arith,
      launch_service-IsTracked w starting idle,
      after_wait-IsTracked w (w.interfere starting) (keep starting idle),
      IsIdle→IsTracked (parts s) i,
    )

-- A restart after a breach keeps the goroutines tracked, if what happens during its delay does.
pub restart_after_breach-IsTracked :
    (o : RestartWorld) (s : System)
    → ((t : System) → IsTracked (parts t) → IsTracked (parts (o.interfere t)))
    → IsTracked (parts s)
    → IsTracked (parts (restart_after_breach o s).0)
unfolding restart_after_breach sleep_then_restart
restart_after_breach-IsTracked o s keep t =
    let counted = stop_in_place o.shutdown (count_restart s) in
    let tracked : IsTracked (parts counted) = simp quiet t in
    let later = keep counted tracked in
    ground (arith, later, do_restart-IsTracked o (o.interfere counted) later)

attach-leaks :
    (w : Wrapper) (now i : ℕ) (s : System)
    → s.rt.monitors ≡ i ∷ []
    → ((attach w now s).rt.monitors ≢ to_list (attach w now s).ms.resource_cancel)
      × (length (attach w now s).rt.monitors ≡ 2)
unfolding attach save_runtime_state emit_event open_capture start_resource_monitor
    start_health_runner start_monitor_service
attach-leaks w now i s e = ground arith

spawn_service-leaks :
    (w : StartWorld) (i : ℕ) (s : System)
    → (spawn_service w s).1 ≡ none
    → s.rt.monitors ≡ i ∷ []
    → ((spawn_service w s).0.rt.monitors ≢ to_list (spawn_service w s).0.ms.resource_cancel)
      × (length (spawn_service w s).0.rt.monitors ≡ 2)
unfolding spawn_service
spawn_service-leaks w i s h e =
    ground
      (arith, attach-leaks (Wrapper.start (Wrapper.new_wrapper s.ms.config) w.launch).0 w.now i s e)

-- The service after a clean exit, as the monitor leaves it.
abbrev pub after_clean_exit : RestartWorld → System → System
after_clean_exit o s = (clean_exit o s).0

-- After a clean exit without a restart, the resource monitor of the exited process keeps running;
-- the next successful start of a process then runs a second one, and no field names the first.
pub clean_exit_leaks :
    (o : RestartWorld) (w : StartWorld) (i : ℕ) (s : System)
    → IsTracked (parts s)
    → s.ms.resource_cancel ≡ some i
    → is_always s.ms.config.restart_policy.mode ≡ false
    → (spawn_service w (after_clean_exit o s)).1 ≡ none
    → (state_of (after_clean_exit o s) ≡ ServiceState.stopped)
      × ((spawn_service w (after_clean_exit o s)).0.rt.monitors
          ≢ to_list (spawn_service w (after_clean_exit o s)).0.ms.resource_cancel)
      × (length (spawn_service w (after_clean_exit o s)).0.rt.monitors ≡ 2)
unfolding clean_exit save_runtime_state
clean_exit_leaks o w i s t c m h =
    let exited = after_clean_exit o s in
    ground (arith, spawn_service-leaks w i exited h (ground arith))
