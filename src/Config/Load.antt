-- ===== src/Config/Load.antt =====
-- internal/config/service_config.go: ToService and parseHookYAML. An error is none.
use elnssm.Common.{ℤ, pos, String, str_eq, map, Option, none, some, if◌then◌else◌}
use elnssm.Model.{
  RestartPolicyConfig, HealthCheckConfig, ResourceLimits, LifecycleHook, LifecycleHooks,
  ServiceDependency, ScheduleEntry, LogConfig, NotificationOverride, Service, ServiceState,
}
use elnssm.Config.Yaml.{
  RestartPolicyYaml, HealthCheckYaml, LoggingYaml, NotificationYaml, DependencyYaml, ScheduleYaml,
  LifecycleHookYaml, LifecycleHooksYaml, ResourceLimitsYaml, ServiceConfigYaml,
}
use elnssm.Config.Texts.{
  Texts, ◌>>=◌, pure, traverse, traverse_option, duration, startup_type_of, stop_signal_of,
  restart_mode_of, dependency_type_of, schedule_action_of,
}
use elnssm.Config.ByteSize.{parse_byte_size}

unfoldable pub load_policy : Texts → RestartPolicyYaml → Option RestartPolicyConfig
load_policy g c = do
  delay ← duration g c.delay
  retry_window ← duration g c.retry_window
  max_backoff ← duration g c.max_backoff
  pure (record {
    mode = restart_mode_of c.mode;
    delay = delay;
    max_retries = c.max_retries;
    retry_window = retry_window;
    backoff_multiplier = c.backoff_multiplier;
    max_backoff = max_backoff;
    restart_on_health_fail = c.restart_on_health_fail;
    scheduled_restart = c.scheduled_restart;
  })

unfoldable pub load_check : Texts → HealthCheckYaml → Option HealthCheckConfig
load_check g hc = do
  interval ← duration g hc.interval
  timeout ← duration g hc.timeout
  start_delay ← duration g hc.start_delay
  pure (record {
    type = hc.type;
    target = hc.target;
    method = hc.method;
    expect_status = hc.expect_status;
    expect_body = hc.expect_body;
    send = hc.send;
    expect_resp = hc.expect_resp;
    script_body = hc.script_body;
    interpreter = "";
    interval = interval;
    timeout = timeout;
    retries = hc.retries;
    start_delay = start_delay;
  })

unfoldable pub parse_hook_yaml : Texts → LifecycleHookYaml → Option LifecycleHook
parse_hook_yaml g h = do
  timeout ← duration g h.timeout
  pure (record {
    command = h.command;
    args = h.args;
    script = h.script;
    timeout = timeout;
    on_failure = if str_eq h.on_failure "" then "continue" else h.on_failure;
  })

abbrev pub no_hooks : LifecycleHooks
no_hooks = record { pre_start = none; post_start = none; pre_stop = none; post_stop = none }

unfoldable pub load_hooks : Texts → Option LifecycleHooksYaml → Option LifecycleHooks
load_hooks g none = some no_hooks
load_hooks g (some c) = do
  pre_start ← traverse_option (parse_hook_yaml g) c.pre_start
  post_start ← traverse_option (parse_hook_yaml g) c.post_start
  pre_stop ← traverse_option (parse_hook_yaml g) c.pre_stop
  post_stop ← traverse_option (parse_hook_yaml g) c.post_stop
  pure (record {
    pre_start = pre_start;
    post_start = post_start;
    pre_stop = pre_stop;
    post_stop = post_stop;
  })

unfoldable pub load_schedule : ScheduleYaml → ScheduleEntry
load_schedule s = record { cron = s.cron; action = schedule_action_of s.action; name = s.name }

unfoldable pub load_dependency : Texts → DependencyYaml → Option ServiceDependency
load_dependency g dep = do
  timeout ← duration g dep.timeout
  pure (record { service_id = dep.service; type = dependency_type_of dep.type; timeout = timeout })

unfoldable pub load_logging : Texts → LoggingYaml → Option LogConfig
load_logging g c = do
  max_age ← duration g c.max_age
  pure (record {
    stdout_file = c.stdout_file;
    stderr_file = c.stderr_file;
    combine_output = c.combine_output;
    max_size = c.max_size;
    max_age = max_age;
    max_backups = c.max_backups;
    compress = c.compress;
  })

abbrev pub load_notifications : Option NotificationYaml → Option NotificationOverride
load_notifications none = none
load_notifications (some n) =
    some (record { enabled = n.enabled; events = n.events; extra_recipients = n.extra_recipients })

-- parseByteSize is called for a text that is not empty.
unfoldable pub load_size : Texts → String → Option ℤ
load_size g s = if str_eq s "" then some (pos 0) else parse_byte_size g s

unfoldable pub load_limits : Texts → ResourceLimitsYaml → Option ResourceLimits
load_limits g c = do
  cpu_duration ← duration g c.cpu_duration
  memory_max ← load_size g c.memory_max
  check_interval ← duration g c.check_interval
  pure (record {
    cpu_threshold = c.cpu_threshold;
    cpu_duration = cpu_duration;
    memory_max = memory_max;
    memory_spike_ratio = c.memory_spike_ratio;
    check_interval = check_interval;
  })

unfoldable pub to_service : Texts → ServiceConfigYaml → Option Service
to_service g c = do
  start_delay ← duration g c.start_delay
  stop_timeout ← duration g c.stop_timeout
  restart_policy ← load_policy g c.restart_policy
  health_checks ← traverse (load_check g) c.health_checks
  hooks ← load_hooks g c.hooks
  dependencies ← traverse (load_dependency g) c.dependencies
  log_config ← load_logging g c.logging
  resource_limits ← load_limits g c.resource_limits
  pure (record {
    id = c.id;
    name = c.name;
    display_name = c.display_name;
    description = c.description;
    executable = c.executable;
    arguments = c.arguments;
    working_dir = c.working_dir;
    environment = c.environment;
    startup_type = startup_type_of c.startup_type;
    start_delay = start_delay;
    service_account = c.service_account;
    service_account_password = c.service_account_password;
    priority = c.priority;
    stop_timeout = stop_timeout;
    stop_signal = stop_signal_of c.stop_signal;
    restart_policy = restart_policy;
    health_checks = health_checks;
    hooks = hooks;
    schedules = map load_schedule c.schedules;
    dependencies = dependencies;
    log_config = log_config;
    notifications = load_notifications c.notifications;
    resource_limits = resource_limits;
    state = ServiceState.stopped;
    pid = pos 0;
    started_at = none;
    restart_count = 0;
    last_exit_code = pos 0;
    last_error = "";
    cpu_percent = record { bits = 0 };
    memory_bytes = pos 0;
  })
