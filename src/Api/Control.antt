-- ===== src/Api/Control.antt =====
-- Start, Stop and Restart of internal/manager/manager.go, which look a service up in the map, and the
-- handlers that call them (internal/api/handlers_services.go), with those of handlers_system.go for
-- the Guardian.
pub mod Others
use elnssm.Common.{
  ℕ, suc, ◌+◌, String, str_eq, List, [], ◌∷◌, length, count_if, Option, none, some, Bool, true,
  false, not, Dict, lookup, insert, if◌then◌else◌,
}
use elnssm.Model.{ServiceState, running, failed, is_running}
use elnssm.Manager.State.{System, state_of}
use elnssm.Manager.Start.{Error, StartWorld, start_service}
use elnssm.Manager.Stop.{StopWorld, stop_service}
use elnssm.Guardian.Defs.{Guardian, request_restart}
use elnssm.Api.Services.Validation.{validate_service_id}

pub data ControlError : Type 0 where
  not_found : ControlError
  not_started : Error → ControlError

abbrev start_error : Option Error → Option ControlError
start_error none = none
start_error (some e) = some (not_started e)

abbrev started : String → Dict System → System × Option Error → Dict System × Option ControlError
started id services (s, error) = (insert id s services, start_error error)

-- Manager.Start, with what it finds in the map
unfoldable pub start_found :
    StartWorld → String → Dict System → Option System → Dict System × Option ControlError
unfolding start_service
start_found w id services none = (services, some not_found)
start_found w id services (some s) = started id services (start_service w s)

unfoldable pub start : StartWorld → String → Dict System → Dict System × Option ControlError
unfolding start_found
start w id services = start_found w id services (lookup id services)

-- Manager.Stop, whose stopService returns no error
unfoldable pub stop_found :
    StopWorld → String → Dict System → Option System → Dict System × Option ControlError
unfolding stop_service
stop_found w id services none = (services, some not_found)
stop_found w id services (some s) = (insert id (stop_service w s) services, none)

unfoldable pub stop : StopWorld → String → Dict System → Dict System × Option ControlError
unfolding stop_found
stop w id services = stop_found w id services (lookup id services)

abbrev then_start :
    StartWorld
    → (Dict System → Dict System)
    → String
    → Dict System × Option ControlError
    → Dict System × Option ControlError
then_start w meanwhile id (services, some e) = (services, some e)
then_start w meanwhile id (services, none) = start w id (meanwhile services)

-- Manager.Restart; `meanwhile` is what others do to the services in the 500 ms between.
unfoldable pub restart :
    StopWorld
    → StartWorld
    → (Dict System → Dict System)
    → String
    → Dict System
    → Dict System × Option ControlError
unfolding start stop
restart v w meanwhile id services = then_start w meanwhile id (stop v id services)

pub data ControlReply : Type 0 where
  invalid_service_id done : ControlReply
  conflict : ControlError → ControlReply

abbrev reply_to : Dict System × Option ControlError → Dict System × ControlReply
reply_to (services, none) = (services, done)
reply_to (services, some e) = (services, conflict e)

abbrev checked :
    String → Dict System → Dict System × Option ControlError → Dict System × ControlReply
checked id services result =
    if not (validate_service_id id) then (services, invalid_service_id) else reply_to result

-- handleStartService
unfoldable pub handle_start_service : StartWorld → String → Dict System → Dict System × ControlReply
unfolding start validate_service_id
handle_start_service w id services = checked id services (start w id services)

-- handleStopService
unfoldable pub handle_stop_service : StopWorld → String → Dict System → Dict System × ControlReply
unfolding stop validate_service_id
handle_stop_service w id services = checked id services (stop w id services)

-- handleRestartService
unfoldable pub handle_restart_service :
    StopWorld
    → StartWorld
    → (Dict System → Dict System)
    → String
    → Dict System
    → Dict System × ControlReply
unfolding restart validate_service_id
handle_restart_service v w meanwhile id services =
    checked id services (restart v w meanwhile id services)

-- The counts of handleSystemStatus.
pub record Counts : Type 0 where
  pub total : ℕ
  pub running : ℕ
  pub failed : ℕ

abbrev is_failed : ServiceState → Bool
is_failed failed = true
is_failed _ = false

abbrev systems : Dict System → List System
systems [] = []
systems ((id, s) ∷ services) = s ∷ systems services

unfoldable pub handle_system_status : Dict System → Counts
handle_system_status services = record {
  total = length services;
  running = count_if (λ s. is_running (state_of s)) (systems services);
  failed = count_if (λ s. is_failed (state_of s)) (systems services);
}

-- handleRestart on the server's restarter, none where it has none: whether it is there, and whether
-- "net stop" and "net start" are to be run after 500 ms.
unfoldable pub handle_restart : {B : Type 0} → Option (Guardian B) → Option (Guardian B) × Bool
unfolding request_restart
handle_restart none = (none, false)
handle_restart (some g) = (some (request_restart g), true)
