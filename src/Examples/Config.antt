-- ===== src/Examples/Config.antt =====
-- The web service's configuration saved and loaded, and the global configuration with its secrets.
use elnssm.Common.{
  str_eq_iff, pos, String, none, some, Bool, true, is_some, ◌&&◌, ◌≡◌, inl, inr, refl, arith,
}
use elnssm.Model.{Service}
use elnssm.Config.Load.{to_service}
use elnssm.Config.Save.{service_to_yaml}
use elnssm.Config.Reload.{reloaded}
use elnssm.Config.RoundTrip.{to_service-service_to_yaml}
use elnssm.Config.Errors.{duration_texts, all_by, is_duration, is_size, to_service_accepts}
use elnssm.Config.Global.{Config, default_config}
use elnssm.Config.Validate.{validate, check_whitelist, check_auth}
use elnssm.Config.Secrets.{
  Secret, Disk, secret, with_secret, update_secrets, encrypt_secrets, decrypt_secrets, load,
}
use elnssm.Config.Encryption.{decrypt_secrets-encrypt_secrets, load-written}
use elnssm.Api.UpdateConfig.Defs.{
  ConfigUpdate, handle_update_config, apply_update, update_guardian, update_cluster, update_smtp,
  update_telegram, update_ntfy, is_changed, without_plain,
}
use elnssm.Api.UpdateConfig.Sealing.{IsKeptIn, AreSealed, handle_update_config-AreSealed}
use elnssm.Api.UpdateConfig.Disk.{handle_update_config-written}
use elnssm.Examples.Data.{web, zero_float}
use elnssm.Examples.Go.{texts, texts-IsGo, dpapi, dpapi-IsDpapi}

-- 512 MB, checked every 5 nanoseconds, after a delay of 3.
abbrev limited : Service
limited = record web {
  start_delay = pos 3;
  resource_limits = record web.resource_limits {
    memory_max = pos 536870912;
    check_interval = pos 5;
  };
}

to_service-service_to_yaml_example :
    to_service texts (service_to_yaml texts limited) ≡ some (reloaded texts texts-IsGo limited)
to_service-service_to_yaml_example =
    to_service-service_to_yaml texts texts-IsGo limited (inr (omega arith))

to_service_accepts_example : is_some (to_service texts (service_to_yaml texts limited)) ≡ (
    all_by (is_duration texts) (duration_texts (service_to_yaml texts limited))
    && is_size texts (service_to_yaml texts limited).resource_limits.memory_max)
to_service_accepts_example = to_service_accepts texts (service_to_yaml texts limited)

abbrev base : Config
base = default_config "C:\\ProgramData\\ELNSSM" zero_float

-- A mail password in plain text and a token of the slaves that is encrypted and in memory.
abbrev secretive : Config
secretive = record base {
  smtp = record base.smtp { password = "pass" };
  cluster = record base.cluster { slave_token = "t"; encrypted_slave_token = "*t" };
}

decrypt_secrets-encrypt_secrets_example :
    (secret Secret.smtp (decrypt_secrets dpapi (encrypt_secrets dpapi secretive).0).0).0
    ≡ (secret Secret.smtp secretive).0
unfolding encrypt_secrets decrypt_secrets update_secrets secret with_secret default_config
decrypt_secrets-encrypt_secrets_example =
    decrypt_secrets-encrypt_secrets dpapi secretive Secret.smtp dpapi-IsDpapi refl refl
      (λ e. ground (arith, e, str_eq_iff "pass" ""))

abbrev known_ip : String → Bool
known_ip s = true

-- Its token has a hash, as Validate wants it.
abbrev hashed : Config
hashed = record secretive {
  api = record base.api { auth = record base.api.auth { token_hash = "#" } };
}

abbrev disk : Disk
disk = record { decoded = some hashed; writable = true }

load-written_example :
    (secret Secret.smtp (encrypt_secrets dpapi (record hashed { file_path = "c.yaml" })).0).0 ≡ ""
unfolding load validate check_whitelist check_auth encrypt_secrets update_secrets secret with_secret
    default_config
load-written_example =
    load-written dpapi known_ip "c.yaml" disk
      (encrypt_secrets dpapi (record hashed { file_path = "c.yaml" })).0 Secret.smtp refl

abbrev sealed : Config
sealed = record base {
  cluster = record base.cluster { slave_token = "t"; encrypted_slave_token = "*t" };
}

abbrev mail_update : ConfigUpdate
mail_update = record {
  guardian = none;
  cluster = none;
  smtp = some (record {
    enabled = some true;
    host = "mail";
    port = pos 25;
    username = "";
    password = "new";
    from = "";
    tls = none;
    recipients = none;
  });
  webhooks = none;
  telegram = none;
  ntfy = none;
  notify_cooldown = "";
}

sealed-AreSealed : AreSealed dpapi sealed
unfolding secret default_config
sealed-AreSealed Secret.smtp = inl refl
sealed-AreSealed Secret.telegram = inl refl
sealed-AreSealed Secret.ntfy = inl refl
sealed-AreSealed Secret.master = inl refl
sealed-AreSealed Secret.slave = inr refl

handle_update_config-AreSealed_example :
    AreSealed dpapi (handle_update_config dpapi true (some mail_update) sealed).config
    × IsKeptIn dpapi dpapi-IsDpapi
        (handle_update_config dpapi true (some mail_update) sealed).written
        (handle_update_config dpapi true (some mail_update) sealed).config
handle_update_config-AreSealed_example =
    handle_update_config-AreSealed dpapi dpapi-IsDpapi true (some mail_update) sealed
      sealed-AreSealed

abbrev on_disk : Config
on_disk = without_plain (apply_update dpapi mail_update sealed).0

handle_update_config-written_example :
    (on_disk.smtp.password ≡ "")
    × (on_disk.telegram.bot_token ≡ "")
    × (on_disk.ntfy.token ≡ "")
    × (on_disk.cluster.master_token ≡ "")
    × (on_disk.cluster.slave_token ≡ sealed.cluster.slave_token)
unfolding handle_update_config apply_update update_guardian update_cluster update_smtp
    update_telegram update_ntfy is_changed without_plain default_config
handle_update_config-written_example =
    handle_update_config-written dpapi true (some mail_update) sealed on_disk refl
