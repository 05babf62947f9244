-- ===== src/Manager/Supervision/Quiet.antt =====
-- Operations of internal/manager that the abstract machine does not see.
use elnssm.Common.{String, Option, ◌≡◌, refl, arith}
use elnssm.Model.{EventType, LifecycleHook}
use elnssm.Process.Wrapper.{Shutdown}
use elnssm.Manager.State.{System, hook_event, emit_event, save_runtime_state}
use elnssm.Manager.Start.{default_working_dir}
use elnssm.Manager.Restart.{stop_in_place}
use elnssm.Manager.Supervision.Steps.{view}

pub view-emit_event : (e : EventType) (s : System) → view (emit_event e s) ≡ view s
unfolding emit_event
view-emit_event e s = refl

pub view-hook_event :
    (h : Option LifecycleHook) (o : Option String) (s : System) → view (hook_event h o s) ≡ view s
unfolding hook_event emit_event
view-hook_event h o s = ground arith

pub view-save : (s : System) → view (save_runtime_state s) ≡ view s
unfolding save_runtime_state
view-save s = ground arith

pub view-stop_in_place : (o : Shutdown) (s : System) → view (stop_in_place o s) ≡ view s
unfolding stop_in_place
view-stop_in_place o s = ground arith

pub view-default_working_dir :
    (dir : String → String) (s : System) → view (default_working_dir dir s) ≡ view s
unfolding default_working_dir
view-default_working_dir dir s = ground arith

pub ruleset seen =
    (view-emit_event, view-hook_event, view-save, view-stop_in_place, view-default_working_dir)
