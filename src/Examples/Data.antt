-- ===== src/Examples/Data.antt =====
-- A web service: its configuration, and its state before and during a run.
use elnssm.Common.{ℤ, pos, ◌+ℤ◌, String, [], ◌∷◌, none, some, true, false}
use elnssm.Model.{
  Float64, RestartPolicyConfig, RestartMode, DependencyType, Service, ServiceState, StartupType,
  StopSignal, LogConfig,
}
use elnssm.Process.Wrapper.{Wrapper, Launch, Shutdown, Adoption, Job, ExitResult, Waited}
use elnssm.Process.Wrapper as Wrapper
use elnssm.Manager.State.{System}
use elnssm.Manager.Policy.{Floats}
use elnssm.Manager.Start.{StartWorld}
use elnssm.Manager.Stop.{StopWorld}
use elnssm.Manager.Restart.{RestartWorld}

abbrev pub zero_float : Float64
zero_float = record { bits = 0 }

abbrev pub policy : RestartPolicyConfig
policy = record {
  mode = RestartMode.on_failure;
  delay = pos 1000;
  max_retries = pos 3;
  retry_window = pos 0;
  backoff_multiplier = zero_float;
  max_backoff = pos 4000;
  restart_on_health_fail = true;
  scheduled_restart = "";
}

abbrev log_config : LogConfig
log_config = record {
  stdout_file = "";
  stderr_file = "";
  combine_output = false;
  max_size = pos 0;
  max_age = pos 0;
  max_backups = pos 0;
  compress = false;
}

abbrev pub web : Service
web = record {
  id = "web";
  name = "web";
  display_name = "Web";
  description = "";
  arguments = [];
  executable = "C:\\web\\web.exe";
  working_dir = "";
  environment = [];
  startup_type = StartupType.auto;
  start_delay = pos 0;
  service_account = "";
  service_account_password = "";
  priority = "normal";
  stop_timeout = pos 0;
  stop_signal = StopSignal.ctrl_c;
  restart_policy = policy;
  health_checks = [];
  hooks = record { pre_start = none; post_start = none; pre_stop = none; post_stop = none };
  schedules = [];
  dependencies = [];
  log_config = log_config;
  notifications = none;
  resource_limits = record {
    cpu_threshold = zero_float;
    cpu_duration = pos 0;
    memory_max = pos 0;
    memory_spike_ratio = zero_float;
    check_interval = pos 0;
  };
  state = ServiceState.stopped;
  pid = pos 0;
  started_at = none;
  restart_count = 0;
  last_exit_code = pos 0;
  last_error = "";
  cpu_percent = zero_float;
  memory_bytes = pos 0;
}

-- The calls of Windows succeed, and the process gets the PID 7.
abbrev pub launch : Launch
launch = record { job = true; logon = true; stdout = true; stderr = true; pid = some (pos 7) }

abbrev pub adoption : Adoption
adoption = record { opened = true; alive = true; job = true }

-- The process does not exit in time, and its job cannot be terminated.
abbrev pub stubborn : Shutdown
stubborn = record { waited = Waited.timed_out; terminate = false; kill = true }

abbrev pub running_wrapper : Wrapper
running_wrapper = record {
  config = web;
  cmd = true;
  job_object = some (record { open_handle = true; kill_on_close = false });
  pid = pos 7;
  exit_ch = [];
  stdout = true;
  stderr = true;
  cmd_ctx = some false;
  cancel = true;
  running = true;
}

abbrev pub stopped_system : System
stopped_system = record {
  ms = record {
    config = web;
    wrapper = none;
    health_runner = none;
    capture = none;
    resource_monitor = none;
    resource_cancel = none;
    stop_ch = 0;
  };
  rt = record {
    fresh = 1;
    monitors = [];
    runners = [];
    armed = [];
    captures = [];
    watchers = [];
    closed = [];
    saved = none;
    store_ok = true;
    events = [];
    released = [];
  };
}

abbrev pub running_system : System
running_system = record {
  ms = record {
    config = record web { state = ServiceState.running; pid = pos 7; started_at = some 50 };
    wrapper = some running_wrapper;
    health_runner = none;
    capture = some 1;
    resource_monitor = some 2;
    resource_cancel = some 2;
    stop_ch = 3;
  };
  rt = record stopped_system.rt {
    fresh = 4;
    monitors = 2 ∷ [];
    captures = 1 ∷ [];
    watchers = 3 ∷ [];
  };
}

-- The service waits for a database.
abbrev pub waiting_web : System
waiting_web = record stopped_system {
  ms = record stopped_system.ms {
    config = record web {
      dependencies =
          record { service_id = "db"; type = DependencyType.running; timeout = pos 0 } ∷ [];
    };
  };
}

abbrev message : Wrapper.Error → String
message e = "failed"

abbrev pub start_world : StartWorld
start_world = record {
  dir = λ path. "C:\\web";
  interfere = λ s. s;
  dependencies = none;
  pre_start = none;
  launch = launch;
  message = message;
  now = 50;
}

abbrev pub stop_world : StopWorld
stop_world = record { pre_stop = none; post_stop = none; shutdown = stubborn }

abbrev pub restart_world : RestartWorld
restart_world = record {
  interfere = λ s. s;
  slept = true;
  shutdown = stubborn;
  launch = launch;
  message = message;
  now = 90;
}

abbrev pub crash : ExitResult
crash = record { exit_code = pos 1; error = some "exit status 1"; crashed = true }

abbrev doubled : ℤ → ℤ
doubled d = d +ℤ d

-- Every multiplier doubles.
abbrev pub doubling : Floats
doubling = record { positive = λ m. false; two = zero_float; mul_duration = λ d m. doubled d }
