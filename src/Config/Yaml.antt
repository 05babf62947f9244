-- ===== src/Config/Yaml.antt =====
-- internal/config: the YAML forms of a service's configuration. Durations and sizes are texts; a
-- pointer that may be nil is an Option.
use elnssm.Common.{ℤ, String, List, Option, Bool, Dict}
use elnssm.Model.{Float64}

pub record RestartPolicyYaml : Type 0 where
  pub mode : String
  pub delay : String
  pub max_retries : ℤ
  pub retry_window : String
  pub backoff_multiplier : Float64
  pub max_backoff : String
  pub restart_on_health_fail : Bool
  pub scheduled_restart : String

pub record HealthCheckYaml : Type 0 where
  pub type : String
  pub target : String
  pub method : String
  pub expect_status : ℤ
  pub expect_body : String
  pub send : String
  pub expect_resp : String
  pub script_body : String
  pub interval : String
  pub timeout : String
  pub retries : ℤ
  pub start_delay : String

pub record LoggingYaml : Type 0 where
  pub stdout_file : String
  pub stderr_file : String
  pub combine_output : Bool
  pub max_size : ℤ
  pub max_age : String
  pub max_backups : ℤ
  pub compress : Bool

pub record NotificationYaml : Type 0 where
  pub enabled : Bool
  pub events : List String
  pub extra_recipients : List String

pub record DependencyYaml : Type 0 where
  pub service : String
  pub type : String
  pub timeout : String

pub record ScheduleYaml : Type 0 where
  pub cron : String
  pub action : String
  pub name : String

pub record LifecycleHookYaml : Type 0 where
  pub command : String
  pub args : List String
  pub script : String
  pub timeout : String
  pub on_failure : String

pub record LifecycleHooksYaml : Type 0 where
  pub pre_start : Option LifecycleHookYaml
  pub post_start : Option LifecycleHookYaml
  pub pre_stop : Option LifecycleHookYaml
  pub post_stop : Option LifecycleHookYaml

pub record ResourceLimitsYaml : Type 0 where
  pub cpu_threshold : Float64
  pub cpu_duration : String
  pub memory_max : String
  pub memory_spike_ratio : Float64
  pub check_interval : String

pub record ServiceConfigYaml : Type 0 where
  pub id : String
  pub name : String
  pub display_name : String
  pub description : String
  pub executable : String
  pub arguments : List String
  pub working_dir : String
  pub environment : Dict String
  pub startup_type : String
  pub start_delay : String
  pub service_account : String
  pub priority : String
  pub stop_timeout : String
  pub stop_signal : String
  pub restart_policy : RestartPolicyYaml
  pub health_checks : List HealthCheckYaml
  pub hooks : Option LifecycleHooksYaml
  pub schedules : List ScheduleYaml
  pub dependencies : List DependencyYaml
  pub logging : LoggingYaml
  pub notifications : Option NotificationYaml
  pub resource_limits : ResourceLimitsYaml
  pub service_account_password : String
