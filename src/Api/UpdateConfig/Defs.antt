-- ===== src/Api/UpdateConfig/Defs.antt =====
-- internal/api/handlers_config.go: configUpdate and handleUpdateConfig. A field of the request is none
-- where the request leaves it out, or its text is empty.
use elnssm.Common.{
  ℤ, pos, ltb_ℤ, String, str_eq, List, Option, none, some, Bool, true, false, not, ◌||◌, ◌&&◌,
  is_some, if◌then◌else◌,
}
use elnssm.Config.Global.{Config, WebhookConfig}
use elnssm.Config.Secrets.{Dpapi}

pub record GuardianUpdate : Type 0 where
  pub enable_native_services : Option Bool

pub record ClusterUpdate : Type 0 where
  pub role : String
  pub master_addr : String
  pub master_token : String
  pub node_name : String
  pub heartbeat_interval : String

pub record SmtpUpdate : Type 0 where
  pub enabled : Option Bool
  pub host : String
  pub port : ℤ
  pub username : String
  pub password : String
  pub from : String
  pub tls : Option Bool
  pub recipients : Option (List String)

pub record TelegramUpdate : Type 0 where
  pub enabled : Option Bool
  pub bot_token : String
  pub chat_ids : Option (List String)

pub record NtfyUpdate : Type 0 where
  pub enabled : Option Bool
  pub server : String
  pub topic : String
  pub token : String
  pub priority : String
  pub tags : String
  pub email : String

pub record ConfigUpdate : Type 0 where
  pub guardian : Option GuardianUpdate
  pub cluster : Option ClusterUpdate
  pub smtp : Option SmtpUpdate
  pub webhooks : Option (List WebhookConfig)
  pub telegram : Option TelegramUpdate
  pub ntfy : Option NtfyUpdate
  pub notify_cooldown : String

-- if new != "" { field = new }
abbrev pub or_text : String → String → String
or_text new old = if str_eq new "" then old else new

-- if new != nil { field = *new }
abbrev pub or_some {ℓ} : {A : Type ℓ} → Option A → A → A
or_some none old = old
or_some (some new) old = new

-- A new secret and its encrypted form; none is an error of the encryption.
abbrev pub new_secret : Dpapi → String → String × String → Option (String × String)
new_secret k new old =
    if str_eq new ""
    then some old
    else elim (k.encrypt new) [ none ↦ none | some x ↦ some (new, x) ]

unfoldable pub update_guardian : Option GuardianUpdate → Config → Config
update_guardian none c = c
update_guardian (some u) c = record c {
  guardian = record c.guardian {
    enable_native_services = or_some u.enable_native_services c.guardian.enable_native_services;
  };
}

abbrev pub before_token : ClusterUpdate → Config → Config
before_token u c = record c {
  cluster = record c.cluster {
    role = or_text u.role c.cluster.role;
    master_addr = or_text u.master_addr c.cluster.master_addr;
  };
}

abbrev pub after_token : ClusterUpdate → String × String → Config → Config
after_token u p c = record c {
  cluster = record c.cluster {
    master_token = p.0;
    encrypted_master_token = p.1;
    node_name = or_text u.node_name c.cluster.node_name;
    heartbeat_interval = or_text u.heartbeat_interval c.cluster.heartbeat_interval;
  };
}

-- Each section gives the configuration, and whether the handler goes on.
abbrev pub or_fail : Config → (String × String → Config) → Option (String × String) → Config × Bool
or_fail failed next none = (failed, false)
or_fail failed next (some p) = (next p, true)

unfoldable pub update_cluster : Dpapi → Option ClusterUpdate → Config → Config × Bool
update_cluster k none c = (c, true)
update_cluster k (some u) c =
    let c1 = before_token u c in
    or_fail c1 (λ p. after_token u p c1)
      (new_secret k u.master_token (c.cluster.master_token, c.cluster.encrypted_master_token))

abbrev pub before_password : SmtpUpdate → Config → Config
before_password u c = record c {
  smtp = record c.smtp {
    enabled = or_some u.enabled c.smtp.enabled;
    host = or_text u.host c.smtp.host;
    port = if ltb_ℤ (pos 0) u.port then u.port else c.smtp.port;
    username = or_text u.username c.smtp.username;
  };
}

abbrev pub after_password : SmtpUpdate → String × String → Config → Config
after_password u p c = record c {
  smtp = record c.smtp {
    password = p.0;
    encrypted_password = p.1;
    from = or_text u.from c.smtp.from;
    tls = or_some u.tls c.smtp.tls;
    recipients = or_some u.recipients c.smtp.recipients;
  };
}

unfoldable pub update_smtp : Dpapi → Option SmtpUpdate → Config → Config × Bool
update_smtp k none c = (c, true)
update_smtp k (some u) c =
    let c1 = before_password u c in
    or_fail c1 (λ p. after_password u p c1)
      (new_secret k u.password (c.smtp.password, c.smtp.encrypted_password))

abbrev pub before_bot_token : TelegramUpdate → Config → Config
before_bot_token u c = record c {
  telegram = record c.telegram { enabled = or_some u.enabled c.telegram.enabled };
}

abbrev pub after_bot_token : TelegramUpdate → String × String → Config → Config
after_bot_token u p c = record c {
  telegram = record c.telegram {
    bot_token = p.0;
    encrypted_bot_token = p.1;
    chat_ids = or_some u.chat_ids c.telegram.chat_ids;
  };
}

unfoldable pub update_telegram : Dpapi → Option TelegramUpdate → Config → Config × Bool
update_telegram k none c = (c, true)
update_telegram k (some u) c =
    let c1 = before_bot_token u c in
    or_fail c1 (λ p. after_bot_token u p c1)
      (new_secret k u.bot_token (c.telegram.bot_token, c.telegram.encrypted_bot_token))

abbrev pub before_ntfy_token : NtfyUpdate → Config → Config
before_ntfy_token u c = record c {
  ntfy = record c.ntfy {
    enabled = or_some u.enabled c.ntfy.enabled;
    server = or_text u.server c.ntfy.server;
    topic = or_text u.topic c.ntfy.topic;
  };
}

abbrev pub after_ntfy_token : NtfyUpdate → String × String → Config → Config
after_ntfy_token u p c = record c {
  ntfy = record c.ntfy {
    token = p.0;
    encrypted_token = p.1;
    priority = or_text u.priority c.ntfy.priority;
    tags = u.tags;
    email = u.email;
  };
}

unfoldable pub update_ntfy : Dpapi → Option NtfyUpdate → Config → Config × Bool
update_ntfy k none c = (c, true)
update_ntfy k (some u) c =
    let c1 = before_ntfy_token u c in
    or_fail c1 (λ p. after_ntfy_token u p c1)
      (new_secret k u.token (c.ntfy.token, c.ntfy.encrypted_token))

-- The sections after a failed one are not reached.
abbrev pub and_then : Config × Bool → (Config → Config × Bool) → Config × Bool
and_then (c, false) next = (c, false)
and_then (c, true) next = next c

abbrev pub update_first : Dpapi → ConfigUpdate → Config → Config × Bool
update_first k u c =
    and_then (update_cluster k u.cluster (update_guardian u.guardian c)) (update_smtp k u.smtp)

abbrev pub update_second : Dpapi → ConfigUpdate → Config → Config × Bool
update_second k u c =
    let c1 : Config = record c { webhooks = or_some u.webhooks c.webhooks } in
    and_then (update_telegram k u.telegram c1) (update_ntfy k u.ntfy)

abbrev pub update_cooldown : ConfigUpdate → Config → Config × Bool
update_cooldown u c =
    (record c { notify_cooldown = or_text u.notify_cooldown c.notify_cooldown }, true)

unfoldable pub apply_update : Dpapi → ConfigUpdate → Config → Config × Bool
apply_update k u c =
    and_then (and_then (update_first k u c) (update_second k u)) (update_cooldown u)

unfoldable pub is_changed : ConfigUpdate → Bool
is_changed u =
    is_some u.guardian
    || is_some u.cluster
    || is_some u.smtp
    || is_some u.webhooks
    || is_some u.telegram
    || is_some u.ntfy
    || not (str_eq u.notify_cooldown "")

-- The plain secrets that are cleared while the file is written, and put back afterwards.
unfoldable pub without_plain : Config → Config
without_plain c = record c {
  smtp = record c.smtp { password = "" };
  telegram = record c.telegram { bot_token = "" };
  ntfy = record c.ntfy { token = "" };
  cluster = record c.cluster { master_token = "" };
}

pub data Status : Type 0 where
  ok bad_request internal_error : Status

-- The configuration in memory, what Save writes if it does, and the response.
pub record Updated : Type 0 where
  pub config : Config
  pub written : Option Config
  pub status : Status

-- `none` is a body that cannot be decoded. An error of Save is only logged.
unfoldable pub handle_update_config : Dpapi → Bool → Option ConfigUpdate → Config → Updated
handle_update_config k writable none c = record { config = c; written = none; status = bad_request }
handle_update_config k writable (some u) c =
    let updated = apply_update k u c in
    if not updated.1
    then record { config = updated.0; written = none; status = internal_error }
    else record {
      config = updated.0;
      written = if is_changed u && writable then some (without_plain updated.0) else none;
      status = ok;
    }
