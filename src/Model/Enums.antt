-- ===== src/Model/Enums.antt =====
-- The string enumerations of internal/model. A Go value of such a type is any string: `unset` is the
-- zero value "", and `other` is any string that no constant names.
use elnssm.Common.{String, Bool, true, false}

pub data ServiceState : Type 0 where
  stopped starting running stopping failed restarting unset : ServiceState

pub data StartupType : Type 0 where
  auto manual disabled delayed_auto : StartupType
  other : String → StartupType

pub data StopSignal : Type 0 where
  ctrl_c ctrl_break terminate wm_close unset : StopSignal
  other : String → StopSignal

pub data RestartMode : Type 0 where
  always on_failure never : RestartMode
  other : String → RestartMode

pub data DependencyType : Type 0 where
  running healthy : DependencyType
  other : String → DependencyType

pub data ScheduleAction : Type 0 where
  start stop restart : ScheduleAction
  other : String → ScheduleAction

pub data HealthStatus : Type 0 where
  healthy unhealthy unknown : HealthStatus

pub data EventType : Type 0 where
  service_started service_stopped service_crashed service_restarted service_added : EventType
  service_removed service_config_changed health_check_failed health_check_recovered : EventType
  restart_limit_reached resource_threshold_breached hook_executed hook_failed : EventType
  schedule_triggered : EventType

abbrev pub is_running : ServiceState → Bool
is_running ServiceState.running = true
is_running _ = false

abbrev pub is_starting : ServiceState → Bool
is_starting ServiceState.starting = true
is_starting _ = false

abbrev pub event_type_text : EventType → String
event_type_text EventType.service_started = "service.started"
event_type_text EventType.service_stopped = "service.stopped"
event_type_text EventType.service_crashed = "service.crashed"
event_type_text EventType.service_restarted = "service.restarted"
event_type_text EventType.service_added = "service.added"
event_type_text EventType.service_removed = "service.removed"
event_type_text EventType.service_config_changed = "service.config_changed"
event_type_text EventType.health_check_failed = "health_check.failed"
event_type_text EventType.health_check_recovered = "health_check.recovered"
event_type_text EventType.restart_limit_reached = "restart.limit_reached"
event_type_text EventType.resource_threshold_breached = "resource.threshold_breached"
event_type_text EventType.hook_executed = "hook.executed"
event_type_text EventType.hook_failed = "hook.failed"
event_type_text EventType.schedule_triggered = "schedule.triggered"
