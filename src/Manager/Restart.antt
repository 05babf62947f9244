-- ===== src/Manager/Restart.antt =====
-- internal/manager/manager.go: doRestart and restartAfterBreach. A sleep lets others act on the
-- service, and says whether it ran to its end.
use elnssm.Common.{ℕ, suc, String, none, some, Bool, true, false, if◌then◌else◌}
use elnssm.Process.Wrapper as Wrapper
use elnssm.Process.Wrapper.{Wrapper, Launch, Shutdown}
use elnssm.Manager.State.{
  System, with_config, set_failed, save_runtime_state, stop_resource_monitor, close_capture,
  open_capture, start_resource_monitor,
}
use elnssm.Manager.Start.{now_running}
use elnssm.Manager.Stop.{stop_and_close}

pub record RestartWorld : Type 0 where
  pub interfere : System → System
  pub slept : Bool
  pub shutdown : Shutdown
  pub launch : Launch
  pub message : Wrapper.Error → String
  pub now : ℕ

-- The Boolean is doRestart's result: whether the new process runs.
unfoldable pub do_restart : RestartWorld → System → System × Bool
do_restart o s =
    let released = stop_resource_monitor (close_capture s) in
    let (wrapper, error) = Wrapper.start (Wrapper.new_wrapper s.ms.config) o.launch in
    elim error [
      | some e ↦ (save_runtime_state (set_failed (o.message e) released), false)
      | none ↦ (
        save_runtime_state
            (start_resource_monitor (open_capture (now_running wrapper o.now released))),
        true,
      )
    ]

abbrev pub count_restart : System → System
count_restart = with_config (λ c. record c { restart_count = suc c.restart_count })

-- sleepOrStop, and doRestart if the delay was waited out.
unfoldable pub sleep_then_restart : RestartWorld → System → System × Bool
sleep_then_restart o s =
    let later = o.interfere s in if o.slept then do_restart o later else (later, false)

-- The field ms.Wrapper keeps the closed wrapper until doRestart replaces it.
unfoldable pub stop_in_place : Shutdown → System → System
stop_in_place o s = elim s.ms.wrapper [
  | none ↦ s
  | some w ↦ record s { ms = record s.ms { wrapper = some (stop_and_close o w) } }
]

unfoldable pub restart_after_breach : RestartWorld → System → System × Bool
restart_after_breach o s = sleep_then_restart o (stop_in_place o.shutdown (count_restart s))
