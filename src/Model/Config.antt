-- ===== src/Model/Config.antt =====
-- internal/model/service.go: the configuration and the runtime state of a managed service.
-- A float64 is its bit pattern; what is computed with one is a parameter of the code that does so.
use elnssm.Common.{ℕ, ℤ, String, List, Option, Bool, Dict}
use elnssm.Model.Enums.{
  ServiceState, StartupType, StopSignal, RestartMode, DependencyType, ScheduleAction,
}

pub record Float64 : Type 0 where
  pub bits : ℕ

pub record RestartPolicyConfig : Type 0 where
  pub mode : RestartMode
  pub delay : ℤ
  pub max_retries : ℤ
  pub retry_window : ℤ
  pub backoff_multiplier : Float64
  pub max_backoff : ℤ
  pub restart_on_health_fail : Bool
  pub scheduled_restart : String

pub record HealthCheckConfig : Type 0 where
  pub type : String
  pub target : String
  pub method : String
  pub expect_status : ℤ
  pub expect_body : String
  pub send : String
  pub expect_resp : String
  pub script_body : String
  pub interpreter : String
  pub interval : ℤ
  pub timeout : ℤ
  pub retries : ℤ
  pub start_delay : ℤ

pub record ResourceLimits : Type 0 where
  pub cpu_threshold : Float64
  pub cpu_duration : ℤ
  pub memory_max : ℤ
  pub memory_spike_ratio : Float64
  pub check_interval : ℤ

pub record LifecycleHook : Type 0 where
  pub command : String
  pub args : List String
  pub script : String
  pub timeout : ℤ
  pub on_failure : String

pub record LifecycleHooks : Type 0 where
  pub pre_start : Option LifecycleHook
  pub post_start : Option LifecycleHook
  pub pre_stop : Option LifecycleHook
  pub post_stop : Option LifecycleHook

pub record ServiceDependency : Type 0 where
  pub service_id : String
  pub type : DependencyType
  pub timeout : ℤ

pub record ScheduleEntry : Type 0 where
  pub cron : String
  pub action : ScheduleAction
  pub name : String

pub record LogConfig : Type 0 where
  pub stdout_file : String
  pub stderr_file : String
  pub combine_output : Bool
  pub max_size : ℤ
  pub max_age : ℤ
  pub max_backups : ℤ
  pub compress : Bool

pub record NotificationOverride : Type 0 where
  pub enabled : Bool
  pub events : List String
  pub extra_recipients : List String

-- All fields but the uptime, which is computed when the service is read.
pub record Service : Type 0 where
  pub id : String
  pub name : String
  pub display_name : String
  pub description : String
  pub executable : String
  pub arguments : List String
  pub working_dir : String
  pub environment : Dict String
  pub startup_type : StartupType
  pub start_delay : ℤ
  pub service_account : String
  pub service_account_password : String
  pub priority : String
  pub stop_timeout : ℤ
  pub stop_signal : StopSignal
  pub restart_policy : RestartPolicyConfig
  pub health_checks : List HealthCheckConfig
  pub hooks : LifecycleHooks
  pub schedules : List ScheduleEntry
  pub dependencies : List ServiceDependency
  pub log_config : LogConfig
  pub notifications : Option NotificationOverride
  pub resource_limits : ResourceLimits
  pub state : ServiceState
  pub pid : ℤ
  pub started_at : Option ℕ
  pub restart_count : ℕ  -- counts up from 0
  pub last_exit_code : ℤ
  pub last_error : String
  pub cpu_percent : Float64
  pub memory_bytes : ℤ
