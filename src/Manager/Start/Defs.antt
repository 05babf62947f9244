-- ===== src/Manager/Start/Defs.antt =====
-- internal/manager/manager.go: startService.
use elnssm.Common.{ℕ, String, str_eq, Option, none, some, Bool, false, if◌then◌else◌}
use elnssm.Model.{ServiceState, LifecycleHook, is_running}
use elnssm.Process.Wrapper as Wrapper
use elnssm.Process.Wrapper.{Wrapper, Launch}
use elnssm.Manager.State.{
  System, state_of, with_config, set_state, set_failed, save_runtime_state, hook_event, is_empty,
}
use elnssm.Manager.Start.Attach.{attach}

pub data Error : Type 0 where
  already_running : Error
  dependency_wait pre_start_hook : String → Error
  start_process : Wrapper.Error → Error

-- `dir` is filepath.Dir. `dependencies` and `pre_start` are the errors of WaitForDependencies and
-- of the pre-start hook, and `message` is the text of a wrapper's error.
pub record StartWorld : Type 0 where
  pub dir : String → String
  pub interfere : System → System
  pub dependencies : Option String
  pub pre_start : Option String
  pub launch : Launch
  pub message : Wrapper.Error → String
  pub now : ℕ

unfoldable pub default_working_dir : (String → String) → System → System
default_working_dir dir s =
    if str_eq s.ms.config.working_dir ""
    then with_config (λ c. record c { working_dir = dir c.executable }) s
    else s

unfoldable pub spawn_service : StartWorld → System → System × Option Error
spawn_service w s =
    let (wrapper, error) = Wrapper.start (Wrapper.new_wrapper s.ms.config) w.launch in
    elim error [
      | none ↦ (attach wrapper w.now s, none)
      | some e ↦ (set_failed (w.message e) s, some (start_process e))
    ]

abbrev aborts : Option LifecycleHook → Bool
aborts none = false
aborts (some h) = str_eq h.on_failure "abort"

-- From the pre-start hook on.
unfoldable pub launch_service : StartWorld → System → System × Option Error
launch_service w s =
    let hook = s.ms.config.hooks.pre_start in
    let hooked = hook_event hook w.pre_start s in
    elim w.pre_start [
      | some e ↦
          if aborts hook
          then (set_failed e hooked, some (pre_start_hook e))
          else spawn_service w hooked
      | none ↦ spawn_service w hooked
    ]

-- The lock is held again: the state is checked once more.
unfoldable pub after_wait : StartWorld → System → System × Option Error
after_wait w s = elim w.dependencies [
  | some e ↦ (save_runtime_state (set_failed e s), some (dependency_wait e))
  | none ↦ if is_running (state_of s) then (s, some already_running) else launch_service w s
]

unfoldable pub start_service : StartWorld → System → System × Option Error
start_service w s =
    if is_running (state_of s)
    then (s, some already_running)
    else let starting = set_state ServiceState.starting (default_working_dir w.dir s) in
      if is_empty starting.ms.config.dependencies
      then launch_service w starting
      else after_wait w (w.interfere starting)

-- The goroutine of the post-start hook, when the hook has run.
unfoldable pub post_start_done : Option String → System → System
post_start_done outcome s = hook_event s.ms.config.hooks.post_start outcome s
