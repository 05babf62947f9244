-- ===== src/Manager/State.antt =====
-- internal/manager/managed_service.go and the state that one service's operations share with the
-- goroutines they start. The manager's functions take a ManagedService and act on the world; here
-- both are a `System`. Goroutines, captures and channels are known by a number that is fresh when
-- they are made.
use elnssm.Common.{
  ℕ, suc, ℤ, String, List, [], ◌∷◌, Option, none, some, Bool, true, false, elem, delete, not,
  if◌then◌else◌,
}
use elnssm.Model.{Service, ServiceState, EventType, LifecycleHook}
use elnssm.Process.Wrapper.{Wrapper}

-- stop_ch is a channel's number; resource_cancel holds the goroutine that it would cancel.
pub record ManagedService : Type 0 where
  pub config : Service
  pub wrapper : Option Wrapper
  pub health_runner : Option ℕ
  pub capture : Option ℕ
  pub resource_monitor : Option ℕ
  pub resource_cancel : Option ℕ
  pub stop_ch : ℕ

-- store.ServiceRuntimeState
pub record ServiceRuntimeState : Type 0 where
  pub state : ServiceState
  pub pid : ℤ
  pub started_at : Option ℕ
  pub restart_count : ℕ
  pub last_exit_code : ℤ
  pub last_error : String

-- `monitors`: the running ResourceMonitor.Run goroutines. `runners`: the health runners
-- that are not cancelled. `armed`: those whose Run has set the cancel function that Stop calls.
-- `captures`: the open log captures. `watchers`: the stop channel that each running monitorService
-- goroutine has taken. `closed`: the closed stop channels. `saved`: the stored runtime state, which
-- is not written while `store_ok` is false. `events`: all emitted, the newest first. `released`: the
-- wrappers that the service has let go of, as they were left.
pub record Runtime : Type 0 where
  pub fresh : ℕ
  pub monitors : List ℕ
  pub runners : List ℕ
  pub armed : List ℕ
  pub captures : List ℕ
  pub watchers : List ℕ
  pub closed : List ℕ
  pub saved : Option ServiceRuntimeState
  pub store_ok : Bool
  pub events : List EventType
  pub released : List Wrapper

pub record System : Type 0 where
  pub ms : ManagedService
  pub rt : Runtime

-- len(ms.Config.HealthChecks) > 0, and the same of the dependencies.
abbrev pub is_empty {ℓ} : {A : Type ℓ} → List A → Bool
is_empty [] = true
is_empty (x ∷ xs) = false

abbrev pub has_checks : Service → Bool
has_checks c = not (is_empty c.health_checks)

abbrev pub state_of : System → ServiceState
state_of s = s.ms.config.state

-- Assignments to fields of ms.Config.
abbrev pub with_config : (Service → Service) → System → System
with_config f s = record s { ms = record s.ms { config = f s.ms.config } }

abbrev pub set_state : ServiceState → System → System
set_state st = with_config (λ c. record c { state = st })

abbrev pub set_failed : String → System → System
set_failed e = with_config (λ c. record c { state = ServiceState.failed; last_error = e })

-- ms.state(), ms.configSnapshot() and ms.wrapper() are reads of these fields.
abbrev pub runtime_state : Service → ServiceRuntimeState
runtime_state c = record {
  state = c.state;
  pid = c.pid;
  started_at = c.started_at;
  restart_count = c.restart_count;
  last_exit_code = c.last_exit_code;
  last_error = c.last_error;
}

-- An error of the store is only logged.
unfoldable pub save_runtime_state : System → System
save_runtime_state s =
    if s.rt.store_ok
    then record s { rt = record s.rt { saved = some (runtime_state s.ms.config) } }
    else s

unfoldable pub emit_event : EventType → System → System
emit_event e s = record s { rt = record s.rt { events = e ∷ s.rt.events } }

-- Calling a goroutine's cancel function ends it.
abbrev pub end_of : Option ℕ → List ℕ → List ℕ
end_of none running = running
end_of (some i) running = delete i running

unfoldable pub stop_resource_monitor : System → System
stop_resource_monitor s = record {
  ms = record s.ms { resource_cancel = none; resource_monitor = none };
  rt = record s.rt { monitors = end_of s.ms.resource_cancel s.rt.monitors };
}

-- Closing a channel that is already closed is avoided.
unfoldable pub signal_stop : System → System
signal_stop s =
    if elem s.ms.stop_ch s.rt.closed
    then s
    else record s { rt = record s.rt { closed = s.ms.stop_ch ∷ s.rt.closed } }

-- r.cancel != nil
abbrev pub is_armed : Option ℕ → List ℕ → Bool
is_armed none armed = true
is_armed (some i) armed = elem i armed

-- The goroutine of Run gets as far as setting the cancel function.
abbrev pub arm_health_runner : System → System
arm_health_runner s = record s {
  rt = record s.rt {
    armed = elim s.ms.health_runner [ none ↦ s.rt.armed | some i ↦ i ∷ s.rt.armed ];
  };
}

-- HealthRunner.Stop, which ends nothing before Run has set the cancel function, and the field cleared.
unfoldable pub stop_health_runner : System → System
stop_health_runner s = record {
  ms = record s.ms { health_runner = none };
  rt = record s.rt {
    runners =
        if is_armed s.ms.health_runner s.rt.armed
        then end_of s.ms.health_runner s.rt.runners
        else s.rt.runners;
  };
}

unfoldable pub close_capture : System → System
close_capture s = record {
  ms = record s.ms { capture = none };
  rt = record s.rt { captures = end_of s.ms.capture s.rt.captures };
}

-- logging.NewCapture and capture.Start.
unfoldable pub open_capture : System → System
open_capture s = record {
  ms = record s.ms { capture = some s.rt.fresh };
  rt = record s.rt { captures = s.rt.fresh ∷ s.rt.captures; fresh = suc s.rt.fresh };
}

-- NewResourceMonitor with a cancel function, and `go rm.Run`.
unfoldable pub start_resource_monitor : System → System
start_resource_monitor s = record {
  ms = record s.ms { resource_monitor = some s.rt.fresh; resource_cancel = some s.rt.fresh };
  rt = record s.rt { monitors = s.rt.fresh ∷ s.rt.monitors; fresh = suc s.rt.fresh };
}

-- health.NewRunner and `go ms.HealthRunner.Run`, if the service has health checks.
unfoldable pub start_health_runner : System → System
start_health_runner s =
    if has_checks s.ms.config
    then record {
      ms = record s.ms { health_runner = some s.rt.fresh };
      rt = record s.rt { runners = s.rt.fresh ∷ s.rt.runners; fresh = suc s.rt.fresh };
    }
    else s

-- A new stop channel, and `go m.monitorService`, which takes it.
unfoldable pub start_monitor_service : System → System
start_monitor_service s = record {
  ms = record s.ms { stop_ch = s.rt.fresh };
  rt = record s.rt { watchers = s.rt.fresh ∷ s.rt.watchers; fresh = suc s.rt.fresh };
}

-- A hook that is configured has run: its error is logged with an event.
unfoldable pub hook_event : Option LifecycleHook → Option String → System → System
hook_event none outcome s = s
hook_event (some h) none s = emit_event EventType.hook_executed s
hook_event (some h) (some e) s = emit_event EventType.hook_failed s
