-- ===== src/Config/Global.antt =====
-- internal/config/config.go and defaults.go: the global configuration.
use elnssm.Common.{ℤ, pos, String, List, [], ◌∷◌, Bool, true, false, Dict}
use elnssm.Model.{Float64}
use elnssm.Config.Yaml.{RestartPolicyYaml}

pub record ClusterConfig : Type 0 where
  pub role : String
  pub master_addr : String
  pub master_token : String
  pub encrypted_master_token : String
  pub slave_token : String
  pub encrypted_slave_token : String
  pub node_name : String
  pub heartbeat_interval : String

pub record GuardianConfig : Type 0 where
  pub data_dir : String
  pub log_level : String
  pub enable_native_services : Bool

pub record AuthConfig : Type 0 where
  pub enabled : Bool
  pub type : String
  pub username : String
  pub password_hash : String
  pub token_hash : String
  pub allow_local_bypass : Bool

pub record ApiConfig : Type 0 where
  pub enabled : Bool
  pub listen : String
  pub ip_whitelist : List String
  pub auth : AuthConfig

pub record LoggingDefaultsYaml : Type 0 where
  pub max_size : ℤ
  pub max_age : String
  pub max_backups : ℤ
  pub compress : Bool
  pub combine_output : Bool

pub record DefaultsConfig : Type 0 where
  pub stop_timeout : String
  pub stop_signal : String
  pub priority : String
  pub restart_policy : RestartPolicyYaml
  pub logging : LoggingDefaultsYaml

pub record SmtpConfig : Type 0 where
  pub enabled : Bool
  pub host : String
  pub port : ℤ
  pub username : String
  pub password : String
  pub encrypted_password : String
  pub from : String
  pub tls : Bool
  pub recipients : List String

pub record WebhookConfig : Type 0 where
  pub name : String
  pub enabled : Bool
  pub url : String
  pub method : String
  pub headers : Dict String
  pub body_template : String
  pub events : List String

pub record TelegramConfig : Type 0 where
  pub enabled : Bool
  pub bot_token : String
  pub encrypted_bot_token : String
  pub chat_ids : List String

pub record NtfyConfig : Type 0 where
  pub enabled : Bool
  pub server : String
  pub topic : String
  pub token : String
  pub encrypted_token : String
  pub priority : String
  pub tags : String
  pub email : String

pub record Config : Type 0 where
  pub guardian : GuardianConfig
  pub api : ApiConfig
  pub cluster : ClusterConfig
  pub defaults : DefaultsConfig
  pub smtp : SmtpConfig
  pub webhooks : List WebhookConfig
  pub telegram : TelegramConfig
  pub ntfy : NtfyConfig
  pub notify_cooldown : String
  pub file_path : String

-- The data directory comes from the environment, and `two` is the float 2.0.
unfoldable pub default_config : String → Float64 → Config
default_config data_dir two = record {
  guardian = record { data_dir = data_dir; log_level = "info"; enable_native_services = false };
  api = record {
    enabled = true;
    listen = "127.0.0.1:9100";
    ip_whitelist = "127.0.0.1" ∷ "::1" ∷ [];
    auth = record {
      enabled = true;
      type = "token";
      username = "";
      password_hash = "";
      token_hash = "";
      allow_local_bypass = true;
    };
  };
  cluster = record {
    role = "";
    master_addr = "";
    master_token = "";
    encrypted_master_token = "";
    slave_token = "";
    encrypted_slave_token = "";
    node_name = "";
    heartbeat_interval = "";
  };
  defaults = record {
    stop_timeout = "30s";
    stop_signal = "ctrl_c";
    priority = "normal";
    restart_policy = record {
      mode = "on_failure";
      delay = "5s";
      max_retries = pos 10;
      retry_window = "1h";
      backoff_multiplier = two;
      max_backoff = "5m";
      restart_on_health_fail = true;
      scheduled_restart = "";
    };
    logging = record {
      max_size = pos 52428800;
      max_age = "168h";
      max_backups = pos 5;
      compress = true;
      combine_output = false;
    };
  };
  smtp = record {
    enabled = false;
    host = "";
    port = pos 587;
    username = "";
    password = "";
    encrypted_password = "";
    from = "";
    tls = true;
    recipients = [];
  };
  webhooks = [];
  telegram = record { enabled = false; bot_token = ""; encrypted_bot_token = ""; chat_ids = [] };
  ntfy = record {
    enabled = false;
    server = "";
    topic = "";
    token = "";
    encrypted_token = "";
    priority = "";
    tags = "";
    email = "";
  };
  notify_cooldown = "5m";
  file_path = "";
}
