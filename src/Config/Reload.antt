-- ===== src/Config/Reload.antt =====
-- internal/config/service_config.go: what is left of a service that ServiceToYAML writes and ToService
-- reads again.
use elnssm.Common.{ℤ, pos, leb_ℤ, str_eq, map, Option, none, some, if◌then◌else◌}
use elnssm.Model.{
  RestartPolicyConfig, HealthCheckConfig, ResourceLimits, LifecycleHook, LifecycleHooks,
  ServiceDependency, ScheduleEntry, Service, ServiceState,
}
use elnssm.Config.Texts.{
  Texts, has_any_limit, startup_type_of, stop_signal_of, restart_mode_of, dependency_type_of,
  schedule_action_of, startup_type_text, stop_signal_text, restart_mode_text, dependency_type_text,
  schedule_action_text,
}
use elnssm.Config.Go.{IsGo, rounded}

-- A duration that is left out unless it is above 0.
abbrev pub kept : ℤ → ℤ
kept d = if leb_ℤ d (pos 0) then pos 0 else d

abbrev pub reloaded_policy : RestartPolicyConfig → RestartPolicyConfig
reloaded_policy p = record p { mode = restart_mode_of (restart_mode_text p.mode) }

-- The interpreter of a script is lost.
abbrev pub reloaded_check : HealthCheckConfig → HealthCheckConfig
reloaded_check hc = record hc { interpreter = "" }

abbrev pub reloaded_hook : LifecycleHook → LifecycleHook
reloaded_hook h = record h {
  timeout = kept h.timeout;
  on_failure = if str_eq h.on_failure "" then "continue" else h.on_failure;
}

abbrev pub on_hook : Option LifecycleHook → Option LifecycleHook
on_hook none = none
on_hook (some h) = some (reloaded_hook h)

abbrev pub reloaded_hooks : LifecycleHooks → LifecycleHooks
reloaded_hooks h = record {
  pre_start = on_hook h.pre_start;
  post_start = on_hook h.post_start;
  pre_stop = on_hook h.pre_stop;
  post_stop = on_hook h.post_stop;
}

abbrev pub reloaded_schedule : ScheduleEntry → ScheduleEntry
reloaded_schedule s = record s { action = schedule_action_of (schedule_action_text s.action) }

abbrev pub reloaded_dependency : ServiceDependency → ServiceDependency
reloaded_dependency d = record d {
  type = dependency_type_of (dependency_type_text d.type);
  timeout = kept d.timeout;
}

module _ (g : Texts) (go : IsGo g) where
  -- All limits are lost, the interval too, unless one of the three thresholds is set.
  abbrev pub reloaded_limits : ResourceLimits → ResourceLimits
  reloaded_limits rl =
      if has_any_limit g rl
      then record rl {
        cpu_duration = kept rl.cpu_duration;
        memory_max = if leb_ℤ rl.memory_max (pos 0) then pos 0 else rounded g go rl.memory_max;
        check_interval = kept rl.check_interval;
      }
      else record {
        cpu_threshold = record { bits = 0 };
        cpu_duration = pos 0;
        memory_max = pos 0;
        memory_spike_ratio = record { bits = 0 };
        check_interval = pos 0;
      }

  -- The configuration is kept but for the fields above, and the runtime state is that of a stopped
  -- service.
  abbrev pub reloaded : Service → Service
  reloaded svc = record svc {
    startup_type = startup_type_of (startup_type_text svc.startup_type);
    start_delay = kept svc.start_delay;
    stop_signal = stop_signal_of (stop_signal_text svc.stop_signal);
    restart_policy = reloaded_policy svc.restart_policy;
    health_checks = map reloaded_check svc.health_checks;
    hooks = reloaded_hooks svc.hooks;
    schedules = map reloaded_schedule svc.schedules;
    dependencies = map reloaded_dependency svc.dependencies;
    resource_limits = reloaded_limits svc.resource_limits;
    state = ServiceState.stopped;
    pid = pos 0;
    started_at = none;
    restart_count = 0;
    last_exit_code = pos 0;
    last_error = "";
    cpu_percent = record { bits = 0 };
    memory_bytes = pos 0;
  }
