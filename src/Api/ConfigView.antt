-- ===== src/Api/ConfigView.antt =====
-- handleGetConfig of internal/api/handlers_config.go: what the API shows of the configuration.
use elnssm.Common.{ℤ, String, List, Bool, ◌≡◌, refl, ap, ◌∙◌, sym}
use elnssm.Config.Global.{Config, GuardianConfig, DefaultsConfig, WebhookConfig}

pub record ApiView : Type 0 where
  pub listen : String
  pub ip_whitelist : List String
  pub auth_enabled : Bool
  pub auth_type : String

pub record SmtpView : Type 0 where
  pub enabled : Bool
  pub host : String
  pub port : ℤ
  pub username : String
  pub from : String
  pub tls : Bool
  pub recipients : List String

pub record TelegramView : Type 0 where
  pub enabled : Bool
  pub chat_ids : List String

pub record NtfyView : Type 0 where
  pub enabled : Bool
  pub server : String
  pub topic : String
  pub priority : String
  pub tags : String
  pub email : String

pub record ClusterView : Type 0 where
  pub role : String
  pub node_name : String
  pub master_addr : String
  pub heartbeat_interval : String

pub record ConfigView : Type 0 where
  pub guardian : GuardianConfig
  pub api : ApiView
  pub defaults : DefaultsConfig
  pub notification_cooldown : String
  pub smtp : SmtpView
  pub webhooks : List WebhookConfig
  pub telegram : TelegramView
  pub ntfy : NtfyView
  pub cluster : ClusterView

unfoldable pub handle_get_config : Config → ConfigView
handle_get_config c = record {
  guardian = c.guardian;
  api = record {
    listen = c.api.listen;
    ip_whitelist = c.api.ip_whitelist;
    auth_enabled = c.api.auth.enabled;
    auth_type = c.api.auth.type;
  };
  defaults = c.defaults;
  notification_cooldown = c.notify_cooldown;
  smtp = record {
    enabled = c.smtp.enabled;
    host = c.smtp.host;
    port = c.smtp.port;
    username = c.smtp.username;
    from = c.smtp.from;
    tls = c.smtp.tls;
    recipients = c.smtp.recipients;
  };
  webhooks = c.webhooks;
  telegram = record { enabled = c.telegram.enabled; chat_ids = c.telegram.chat_ids };
  ntfy = record {
    enabled = c.ntfy.enabled;
    server = c.ntfy.server;
    topic = c.ntfy.topic;
    priority = c.ntfy.priority;
    tags = c.ntfy.tags;
    email = c.ntfy.email;
  };
  cluster = record {
    role = c.cluster.role;
    node_name = c.cluster.node_name;
    master_addr = c.cluster.master_addr;
    heartbeat_interval = c.cluster.heartbeat_interval;
  };
}

-- The configuration without its secrets: the five of the other systems, also encrypted, and the
-- credentials of the API.
unfoldable pub redacted : Config → Config
redacted c = record c {
  api = record c.api {
    auth = record c.api.auth { username = ""; password_hash = ""; token_hash = "" };
  };
  smtp = record c.smtp { password = ""; encrypted_password = "" };
  telegram = record c.telegram { bot_token = ""; encrypted_bot_token = "" };
  ntfy = record c.ntfy { token = ""; encrypted_token = "" };
  cluster = record c.cluster {
    master_token = "";
    encrypted_master_token = "";
    slave_token = "";
    encrypted_slave_token = "";
  };
}

handle_get_config-redacted : (c : Config) → handle_get_config (redacted c) ≡ handle_get_config c
unfolding handle_get_config redacted
handle_get_config-redacted c = refl

-- Configurations that differ in their secrets only are shown alike.
pub handle_get_config_alike :
    (c d : Config) → redacted c ≡ redacted d → handle_get_config c ≡ handle_get_config d
handle_get_config_alike c d e =
    sym (handle_get_config-redacted c) ∙ ap handle_get_config e ∙ handle_get_config-redacted d
