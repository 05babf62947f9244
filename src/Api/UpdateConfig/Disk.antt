-- ===== src/Api/UpdateConfig/Disk.antt =====
-- internal/api/handlers_config.go: which secrets handleUpdateConfig writes to the file.
use elnssm.Common.{String, Option, none, some, Bool, true, false, ◌≡◌, refl, ◌∙◌, arith}
use elnssm.Config.Global.{Config}
use elnssm.Config.Secrets.{Dpapi, Pair}
use elnssm.Api.UpdateConfig.Defs.{
  ClusterUpdate, SmtpUpdate, TelegramUpdate, NtfyUpdate, GuardianUpdate, ConfigUpdate, or_some,
  new_secret, or_fail, before_token, after_token, before_password, after_password, before_bot_token,
  after_bot_token, before_ntfy_token, after_ntfy_token, update_guardian, update_cluster,
  update_smtp, update_telegram, update_ntfy, and_then, update_first, update_second, update_cooldown,
  apply_update, without_plain, handle_update_config,
}

abbrev slave_token : Config → String
slave_token c = c.cluster.slave_token

or_fail-slave :
    (failed : Config) (next : Pair → Config) (o : Option Pair) (token : String)
    → slave_token failed ≡ token
    → ((p : Pair) → slave_token (next p) ≡ token)
    → slave_token (or_fail failed next o).0 ≡ token
or_fail-slave failed next none token f n = f
or_fail-slave failed next (some p) token f n = n p

guardian_slave :
    (u : Option GuardianUpdate) (c : Config) → slave_token (update_guardian u c) ≡ slave_token c
unfolding update_guardian
guardian_slave none c = refl
guardian_slave (some u) c = refl

module _ (k : Dpapi) where
  cluster_slave :
      (u : Option ClusterUpdate) (c : Config) → slave_token (update_cluster k u c).0 ≡ slave_token c
  unfolding update_cluster
  cluster_slave none c = refl
  cluster_slave (some u) c =
      or_fail-slave (before_token u c) (λ p. after_token u p (before_token u c))
        (new_secret k u.master_token (c.cluster.master_token, c.cluster.encrypted_master_token))
        (slave_token c) refl (λ p. refl)

  smtp_slave :
      (u : Option SmtpUpdate) (c : Config) → slave_token (update_smtp k u c).0 ≡ slave_token c
  unfolding update_smtp
  smtp_slave none c = refl
  smtp_slave (some u) c =
      or_fail-slave (before_password u c) (λ p. after_password u p (before_password u c))
        (new_secret k u.password (c.smtp.password, c.smtp.encrypted_password)) (slave_token c) refl
        (λ p. refl)

  telegram_slave :
      (u : Option TelegramUpdate) (c : Config)
      → slave_token (update_telegram k u c).0 ≡ slave_token c
  unfolding update_telegram
  telegram_slave none c = refl
  telegram_slave (some u) c =
      or_fail-slave (before_bot_token u c) (λ p. after_bot_token u p (before_bot_token u c))
        (new_secret k u.bot_token (c.telegram.bot_token, c.telegram.encrypted_bot_token))
        (slave_token c) refl (λ p. refl)

  ntfy_slave :
      (u : Option NtfyUpdate) (c : Config) → slave_token (update_ntfy k u c).0 ≡ slave_token c
  unfolding update_ntfy
  ntfy_slave none c = refl
  ntfy_slave (some u) c =
      or_fail-slave (before_ntfy_token u c) (λ p. after_ntfy_token u p (before_ntfy_token u c))
        (new_secret k u.token (c.ntfy.token, c.ntfy.encrypted_token)) (slave_token c) refl
        (λ p. refl)

  and_then-slave :
      (r : Config × Bool) (next : Config → Config × Bool)
      → ((c : Config) → slave_token (next c).0 ≡ slave_token c)
      → slave_token (and_then r next).0 ≡ slave_token r.0
  and_then-slave (c, false) next n = refl
  and_then-slave (c, true) next n = n c

  apply_update-slave :
      (u : ConfigUpdate) (c : Config) → slave_token (apply_update k u c).0 ≡ slave_token c
  unfolding apply_update
  apply_update-slave u c =
      and_then-slave (and_then (update_first k u c) (update_second k u)) (update_cooldown u)
        (λ d. refl)
      ∙ and_then-slave (update_first k u c) (update_second k u) (λ d.
        let d1 : Config = record d { webhooks = or_some u.webhooks d.webhooks } in
        and_then-slave (update_telegram k u.telegram d1) (update_ntfy k u.ntfy) (ntfy_slave u.ntfy)
        ∙ telegram_slave u.telegram d1)
      ∙ and_then-slave (update_cluster k u.cluster (update_guardian u.guardian c))
          (update_smtp k u.smtp) (smtp_slave u.smtp)
      ∙ cluster_slave u.cluster (update_guardian u.guardian c)
      ∙ guardian_slave u.guardian c

  -- Of the five secrets the file that an update writes holds four only encrypted; the token of the
  -- slaves is written as it is in memory, in plain text.
  pub handle_update_config-written :
      (writable : Bool) (u : Option ConfigUpdate) (c w : Config)
      → (handle_update_config k writable u c).written ≡ some w
      → (w.smtp.password ≡ "")
        × (w.telegram.bot_token ≡ "")
        × (w.ntfy.token ≡ "")
        × (w.cluster.master_token ≡ "")
        × (w.cluster.slave_token ≡ c.cluster.slave_token)
  unfolding handle_update_config without_plain
  handle_update_config-written writable none c w h = absurd (ground (arith, h))
  handle_update_config-written writable (some u) c w h = ground (arith, h, apply_update-slave u c)
