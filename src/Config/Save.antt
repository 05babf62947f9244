-- ===== src/Config/Save.antt =====
-- internal/config/service_config.go: ServiceToYAML and hookToYAML.
use elnssm.Common.{pos, leb_ℤ, map, Option, none, some, ◌||◌, is_some, if◌then◌else◌}
use elnssm.Model.{
  RestartPolicyConfig, HealthCheckConfig, ResourceLimits, LifecycleHook, LifecycleHooks,
  ServiceDependency, ScheduleEntry, LogConfig, NotificationOverride, Service,
}
use elnssm.Config.Yaml.{
  RestartPolicyYaml, HealthCheckYaml, LoggingYaml, NotificationYaml, DependencyYaml, ScheduleYaml,
  LifecycleHookYaml, LifecycleHooksYaml, ResourceLimitsYaml, ServiceConfigYaml,
}
use elnssm.Config.Texts.{
  Texts, opt_duration, has_any_limit, startup_type_text, stop_signal_text, restart_mode_text,
  dependency_type_text, schedule_action_text,
}
use elnssm.Config.ByteSize.{format_byte_size}

unfoldable pub save_policy : Texts → RestartPolicyConfig → RestartPolicyYaml
save_policy g p = record {
  mode = restart_mode_text p.mode;
  delay = g.duration_string p.delay;
  max_retries = p.max_retries;
  retry_window = g.duration_string p.retry_window;
  backoff_multiplier = p.backoff_multiplier;
  max_backoff = g.duration_string p.max_backoff;
  restart_on_health_fail = p.restart_on_health_fail;
  scheduled_restart = p.scheduled_restart;
}

unfoldable pub save_check : Texts → HealthCheckConfig → HealthCheckYaml
save_check g hc = record {
  type = hc.type;
  target = hc.target;
  method = hc.method;
  expect_status = hc.expect_status;
  expect_body = hc.expect_body;
  send = hc.send;
  expect_resp = hc.expect_resp;
  script_body = hc.script_body;
  interval = g.duration_string hc.interval;
  timeout = g.duration_string hc.timeout;
  retries = hc.retries;
  start_delay = g.duration_string hc.start_delay;
}

unfoldable pub hook_to_yaml : Texts → Option LifecycleHook → Option LifecycleHookYaml
hook_to_yaml g none = none
hook_to_yaml g (some h) = some (record {
  command = h.command;
  args = h.args;
  script = h.script;
  timeout = opt_duration g h.timeout;
  on_failure = h.on_failure;
})

unfoldable pub save_hooks : Texts → LifecycleHooks → Option LifecycleHooksYaml
save_hooks g h =
    if is_some h.pre_start || is_some h.post_start || is_some h.pre_stop || is_some h.post_stop
    then some (record {
      pre_start = hook_to_yaml g h.pre_start;
      post_start = hook_to_yaml g h.post_start;
      pre_stop = hook_to_yaml g h.pre_stop;
      post_stop = hook_to_yaml g h.post_stop;
    })
    else none

unfoldable pub save_schedule : ScheduleEntry → ScheduleYaml
save_schedule s = record { cron = s.cron; action = schedule_action_text s.action; name = s.name }

unfoldable pub save_dependency : Texts → ServiceDependency → DependencyYaml
save_dependency g dep = record {
  service = dep.service_id;
  type = dependency_type_text dep.type;
  timeout = opt_duration g dep.timeout;
}

unfoldable pub save_logging : Texts → LogConfig → LoggingYaml
save_logging g l = record {
  stdout_file = l.stdout_file;
  stderr_file = l.stderr_file;
  combine_output = l.combine_output;
  max_size = l.max_size;
  max_age = g.duration_string l.max_age;
  max_backups = l.max_backups;
  compress = l.compress;
}

abbrev pub save_notifications : Option NotificationOverride → Option NotificationYaml
save_notifications none = none
save_notifications (some n) =
    some (record { enabled = n.enabled; events = n.events; extra_recipients = n.extra_recipients })

-- The zero value of ResourceLimitsYAML.
abbrev pub no_limits : ResourceLimitsYaml
no_limits = record {
  cpu_threshold = record { bits = 0 };
  cpu_duration = "";
  memory_max = "";
  memory_spike_ratio = record { bits = 0 };
  check_interval = "";
}

unfoldable pub save_limits : Texts → ResourceLimits → ResourceLimitsYaml
save_limits g rl =
    if has_any_limit g rl
    then record {
      cpu_threshold = rl.cpu_threshold;
      cpu_duration = opt_duration g rl.cpu_duration;
      memory_max = if leb_ℤ rl.memory_max (pos 0) then "" else format_byte_size g rl.memory_max;
      memory_spike_ratio = rl.memory_spike_ratio;
      check_interval = opt_duration g rl.check_interval;
    }
    else no_limits

unfoldable pub service_to_yaml : Texts → Service → ServiceConfigYaml
service_to_yaml g svc = record {
  id = svc.id;
  name = svc.name;
  display_name = svc.display_name;
  description = svc.description;
  executable = svc.executable;
  arguments = svc.arguments;
  working_dir = svc.working_dir;
  environment = svc.environment;
  startup_type = startup_type_text svc.startup_type;
  start_delay = opt_duration g svc.start_delay;
  service_account = svc.service_account;
  priority = svc.priority;
  stop_timeout = g.duration_string svc.stop_timeout;
  stop_signal = stop_signal_text svc.stop_signal;
  restart_policy = save_policy g svc.restart_policy;
  health_checks = map (save_check g) svc.health_checks;
  hooks = save_hooks g svc.hooks;
  schedules = map save_schedule svc.schedules;
  dependencies = map (save_dependency g) svc.dependencies;
  logging = save_logging g svc.log_config;
  notifications = save_notifications svc.notifications;
  resource_limits = save_limits g svc.resource_limits;
  service_account_password = svc.service_account_password;
}
