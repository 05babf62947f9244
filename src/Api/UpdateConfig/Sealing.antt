-- ===== src/Api/UpdateConfig/Sealing.antt =====
-- internal/api/handlers_config.go: what handleUpdateConfig does to the secrets, in memory and on disk.
use elnssm.Common.{
  String, str_eq_iff, List, Option, none, some, Bool, true, false, ◌≡◌, ◌⊎◌, inl, inr, refl, ap,
  ◌∙◌, arith, Bool-cases, Option-cases, subst, sym,
}
use elnssm.Config.Global.{Config, WebhookConfig}
use elnssm.Config.Secrets.{Dpapi, Secret, smtp, telegram, ntfy, master, slave, Pair, secret}
use elnssm.Config.Encryption.{IsDpapi}
use elnssm.Api.UpdateConfig.Defs.{
  GuardianUpdate, ClusterUpdate, SmtpUpdate, TelegramUpdate, NtfyUpdate, ConfigUpdate, or_some,
  or_text, new_secret, or_fail, before_token, after_token, before_password, after_password,
  before_ntfy_token, after_ntfy_token, before_bot_token, after_bot_token, update_guardian,
  update_cluster, update_smtp, update_telegram, update_ntfy, and_then, update_first, update_second,
  update_cooldown, apply_update, without_plain, Updated, handle_update_config,
}

module _ (k : Dpapi) where
  -- A secret that is set in memory is what its encrypted form decrypts to.
  abbrev pub IsSealed : Pair → Type 0
  IsSealed p = (p.0 ≡ "") ⊎ (k.decrypt p.1 ≡ some p.0)

  abbrev pub AreSealed : Config → Type 0
  AreSealed c = (t : Secret) → IsSealed (secret t c)

  module _ (dpapi : IsDpapi k) where
    new_secret-IsSealed :
        (new : String) (old p : Pair) → IsSealed old → new_secret k new old ≡ some p → IsSealed p
    new_secret-IsSealed new (a, b) (p, x) s e =
        ground (arith, s, e, str_eq_iff new "", dpapi.decrypt-encrypt new x)

    or_fail-AreSealed :
        (failed : Config) (next : Pair → Config) (o : Option Pair)
        → AreSealed failed
        → ((p : Pair) → o ≡ some p → AreSealed (next p))
        → AreSealed (or_fail failed next o).0
    or_fail-AreSealed failed next none f n = f
    or_fail-AreSealed failed next (some p) f n = n p refl

    guardian_lem :
        (u : Option GuardianUpdate) (c : Config)
        → AreSealed c
        → (t : Secret) → IsSealed (secret t (update_guardian u c))
    unfolding update_guardian secret
    guardian_lem none c s t = s t
    guardian_lem (some u) c s smtp = s smtp
    guardian_lem (some u) c s telegram = s telegram
    guardian_lem (some u) c s ntfy = s ntfy
    guardian_lem (some u) c s master = s master
    guardian_lem (some u) c s slave = s slave

    cluster_before :
        (u : ClusterUpdate) (c : Config)
        → AreSealed c
        → (t : Secret) → IsSealed (secret t (before_token u c))
    unfolding secret
    cluster_before u c s smtp = s smtp
    cluster_before u c s telegram = s telegram
    cluster_before u c s ntfy = s ntfy
    cluster_before u c s master = s master
    cluster_before u c s slave = s slave

    cluster_after :
        (u : ClusterUpdate) (p : Pair) (c : Config)
        → IsSealed p
        → AreSealed c
        → (t : Secret) → IsSealed (secret t (after_token u p c))
    unfolding secret
    cluster_after u p c n s smtp = s smtp
    cluster_after u p c n s telegram = s telegram
    cluster_after u p c n s ntfy = s ntfy
    cluster_after u p c n s slave = s slave
    cluster_after u p c n s master = n

    cluster_old :
        (c : Config)
        → AreSealed c
        → IsSealed (c.cluster.master_token, c.cluster.encrypted_master_token)
    unfolding secret
    cluster_old c s = s master

    cluster_lem :
        (u : Option ClusterUpdate) (c : Config) → AreSealed c → AreSealed (update_cluster k u c).0
    unfolding update_cluster
    cluster_lem none c s = s
    cluster_lem (some u) c s =
        or_fail-AreSealed (before_token u c) (λ p. after_token u p (before_token u c))
          (new_secret k u.master_token (c.cluster.master_token, c.cluster.encrypted_master_token))
          (cluster_before u c s)
          (λ p e.
            cluster_after u p (before_token u c)
              (new_secret-IsSealed u.master_token
                (c.cluster.master_token, c.cluster.encrypted_master_token) p (cluster_old c s) e)
              (cluster_before u c s))

    smtp_before :
        (u : SmtpUpdate) (c : Config)
        → AreSealed c
        → (t : Secret) → IsSealed (secret t (before_password u c))
    unfolding secret
    smtp_before u c s smtp = s smtp
    smtp_before u c s telegram = s telegram
    smtp_before u c s ntfy = s ntfy
    smtp_before u c s master = s master
    smtp_before u c s slave = s slave

    smtp_after :
        (u : SmtpUpdate) (p : Pair) (c : Config)
        → IsSealed p
        → AreSealed c
        → (t : Secret) → IsSealed (secret t (after_password u p c))
    unfolding secret
    smtp_after u p c n s telegram = s telegram
    smtp_after u p c n s ntfy = s ntfy
    smtp_after u p c n s master = s master
    smtp_after u p c n s slave = s slave
    smtp_after u p c n s smtp = n

    smtp_old : (c : Config) → AreSealed c → IsSealed (c.smtp.password, c.smtp.encrypted_password)
    unfolding secret
    smtp_old c s = s smtp

    smtp_lem : (u : Option SmtpUpdate) (c : Config) → AreSealed c → AreSealed (update_smtp k u c).0
    unfolding update_smtp
    smtp_lem none c s = s
    smtp_lem (some u) c s =
        or_fail-AreSealed (before_password u c) (λ p. after_password u p (before_password u c))
          (new_secret k u.password (c.smtp.password, c.smtp.encrypted_password)) (smtp_before u c s)
          (λ p e.
            smtp_after u p (before_password u c)
              (new_secret-IsSealed u.password (c.smtp.password, c.smtp.encrypted_password) p
                (smtp_old c s) e)
              (smtp_before u c s))

    telegram_before :
        (u : TelegramUpdate) (c : Config)
        → AreSealed c
        → (t : Secret) → IsSealed (secret t (before_bot_token u c))
    unfolding secret
    telegram_before u c s smtp = s smtp
    telegram_before u c s telegram = s telegram
    telegram_before u c s ntfy = s ntfy
    telegram_before u c s master = s master
    telegram_before u c s slave = s slave

    telegram_after :
        (u : TelegramUpdate) (p : Pair) (c : Config)
        → IsSealed p
        → AreSealed c
        → (t : Secret) → IsSealed (secret t (after_bot_token u p c))
    unfolding secret
    telegram_after u p c n s smtp = s smtp
    telegram_after u p c n s ntfy = s ntfy
    telegram_after u p c n s master = s master
    telegram_after u p c n s slave = s slave
    telegram_after u p c n s telegram = n

    telegram_old :
        (c : Config) → AreSealed c → IsSealed (c.telegram.bot_token, c.telegram.encrypted_bot_token)
    unfolding secret
    telegram_old c s = s telegram

    telegram_lem :
        (u : Option TelegramUpdate) (c : Config) → AreSealed c → AreSealed (update_telegram k u c).0
    unfolding update_telegram
    telegram_lem none c s = s
    telegram_lem (some u) c s =
        or_fail-AreSealed (before_bot_token u c) (λ p. after_bot_token u p (before_bot_token u c))
          (new_secret k u.bot_token (c.telegram.bot_token, c.telegram.encrypted_bot_token))
          (telegram_before u c s)
          (λ p e.
            telegram_after u p (before_bot_token u c)
              (new_secret-IsSealed u.bot_token
                (c.telegram.bot_token, c.telegram.encrypted_bot_token) p (telegram_old c s) e)
              (telegram_before u c s))

    ntfy_before :
        (u : NtfyUpdate) (c : Config)
        → AreSealed c
        → (t : Secret) → IsSealed (secret t (before_ntfy_token u c))
    unfolding secret
    ntfy_before u c s smtp = s smtp
    ntfy_before u c s telegram = s telegram
    ntfy_before u c s ntfy = s ntfy
    ntfy_before u c s master = s master
    ntfy_before u c s slave = s slave

    ntfy_after :
        (u : NtfyUpdate) (p : Pair) (c : Config)
        → IsSealed p
        → AreSealed c
        → (t : Secret) → IsSealed (secret t (after_ntfy_token u p c))
    unfolding secret
    ntfy_after u p c n s smtp = s smtp
    ntfy_after u p c n s telegram = s telegram
    ntfy_after u p c n s master = s master
    ntfy_after u p c n s slave = s slave
    ntfy_after u p c n s ntfy = n

    ntfy_old : (c : Config) → AreSealed c → IsSealed (c.ntfy.token, c.ntfy.encrypted_token)
    unfolding secret
    ntfy_old c s = s ntfy

    ntfy_lem : (u : Option NtfyUpdate) (c : Config) → AreSealed c → AreSealed (update_ntfy k u c).0
    unfolding update_ntfy
    ntfy_lem none c s = s
    ntfy_lem (some u) c s =
        or_fail-AreSealed (before_ntfy_token u c)
          (λ p. after_ntfy_token u p (before_ntfy_token u c))
          (new_secret k u.token (c.ntfy.token, c.ntfy.encrypted_token)) (ntfy_before u c s)
          (λ p e.
            ntfy_after u p (before_ntfy_token u c)
              (new_secret-IsSealed u.token (c.ntfy.token, c.ntfy.encrypted_token) p (ntfy_old c s)
                e)
              (ntfy_before u c s))

    and_then-AreSealed :
        (r : Config × Bool) (next : Config → Config × Bool)
        → AreSealed r.0
        → ((c : Config) → AreSealed c → AreSealed (next c).0)
        → AreSealed (and_then r next).0
    and_then-AreSealed (c, false) next s n = s
    and_then-AreSealed (c, true) next s n = n c s

    webhooks_lem :
        (w : List WebhookConfig) (c : Config)
        → AreSealed c
        → (t : Secret) → IsSealed (secret t (record c { webhooks = w }))
    unfolding secret
    webhooks_lem w c s smtp = s smtp
    webhooks_lem w c s telegram = s telegram
    webhooks_lem w c s ntfy = s ntfy
    webhooks_lem w c s master = s master
    webhooks_lem w c s slave = s slave

    cooldown_lem :
        (text : String) (c : Config)
        → AreSealed c
        → (t : Secret) → IsSealed (secret t (record c { notify_cooldown = text }))
    unfolding secret
    cooldown_lem text c s smtp = s smtp
    cooldown_lem text c s telegram = s telegram
    cooldown_lem text c s ntfy = s ntfy
    cooldown_lem text c s master = s master
    cooldown_lem text c s slave = s slave

    update_first-AreSealed :
        (u : ConfigUpdate) (c : Config) → AreSealed c → AreSealed (update_first k u c).0
    update_first-AreSealed u c s =
        let c1 = update_guardian u.guardian c in
        and_then-AreSealed (update_cluster k u.cluster c1) (update_smtp k u.smtp)
          (cluster_lem u.cluster c1 (guardian_lem u.guardian c s)) (smtp_lem u.smtp)

    update_second-AreSealed :
        (u : ConfigUpdate) (c : Config) → AreSealed c → AreSealed (update_second k u c).0
    update_second-AreSealed u c s =
        let c1 : Config = record c { webhooks = or_some u.webhooks c.webhooks } in
        and_then-AreSealed (update_telegram k u.telegram c1) (update_ntfy k u.ntfy)
          (telegram_lem u.telegram c1 (webhooks_lem (or_some u.webhooks c.webhooks) c s))
          (ntfy_lem u.ntfy)

    apply_update-AreSealed :
        (u : ConfigUpdate) (c : Config) → AreSealed c → AreSealed (apply_update k u c).0
    unfolding apply_update
    apply_update-AreSealed u c s =
        and_then-AreSealed (and_then (update_first k u c) (update_second k u)) (update_cooldown u)
          (and_then-AreSealed (update_first k u c) (update_second k u)
            (update_first-AreSealed u c s) (update_second-AreSealed u))
          (λ c2. cooldown_lem (or_text u.notify_cooldown c2.notify_cooldown) c2)

    -- What Save writes has the encrypted forms of memory.
    without_plain-encrypted :
        (c : Config) (t : Secret) → (secret t (without_plain c)).1 ≡ (secret t c).1
    unfolding without_plain secret
    without_plain-encrypted c smtp = refl
    without_plain-encrypted c telegram = refl
    without_plain-encrypted c ntfy = refl
    without_plain-encrypted c master = refl
    without_plain-encrypted c slave = refl

    written_from :
        (writable : Bool) (u : ConfigUpdate) (c w : Config)
        → (handle_update_config k writable (some u) c).written ≡ some w
        → w ≡ without_plain (handle_update_config k writable (some u) c).config
    unfolding handle_update_config
    written_from writable u c w h = ground (arith, h)

    -- A secret in memory that is set is what the encrypted form in the file decrypts to.
    abbrev pub IsKept : Config → Config → Type 0
    IsKept file memory =
        (t : Secret)
        → ((secret t memory).0 ≡ "") ⊎ (k.decrypt (secret t file).1 ≡ some (secret t memory).0)

    -- The same of the file that is written, if one is.
    abbrev pub IsKeptIn : Option Config → Config → Type 0
    IsKeptIn none memory = Unit
    IsKeptIn (some file) memory = IsKept file memory

    memory-AreSealed :
        (writable : Bool) (u : Option ConfigUpdate) (c : Config)
        → AreSealed c
        → AreSealed (handle_update_config k writable u c).config
    unfolding handle_update_config
    memory-AreSealed writable none c s = s
    memory-AreSealed writable (some u) c s =
        let sealed = apply_update-AreSealed u c s in
        elim (Bool-cases (apply_update k u c).1) [ inl e ↦ rw e sealed | inr e ↦ rw e sealed ]

    written-IsKept :
        (writable : Bool) (u : Option ConfigUpdate) (c w : Config)
        → AreSealed c
        → (handle_update_config k writable u c).written ≡ some w
        → IsKept w (handle_update_config k writable u c).config
    written-IsKept writable none c w s h t =
        absurd (unfold handle_update_config in ground (arith, h))
    written-IsKept writable (some u) c w s h t =
        let memory = (handle_update_config k writable (some u) c).config in
        let same : (secret t w).1 ≡ (secret t memory).1 =
          ap (λ x. (secret t x).1) (written_from writable u c w h)
          ∙ without_plain-encrypted memory t in
        rw same (memory-AreSealed writable (some u) c s t)

    -- If each secret in memory that is set is what its encrypted form decrypts to, then it is so after
    -- the update, whatever the request and its result. And where a file is written, each secret that
    -- is then set in memory is what its encrypted form in that file decrypts to.
    pub handle_update_config-AreSealed :
        (writable : Bool) (u : Option ConfigUpdate) (c : Config)
        → AreSealed c
        → AreSealed (handle_update_config k writable u c).config
          × IsKeptIn
              (handle_update_config k writable u c).written
              (handle_update_config k writable u c).config
    handle_update_config-AreSealed writable u c s =
        (memory-AreSealed writable u c s, kept_in (Option-cases result.written))
      where
        result : Updated
        result = handle_update_config k writable u c

        kept_in :
            (result.written ≡ none) ⊎ (w : Config) × (result.written ≡ some w)
            → IsKeptIn result.written result.config
        kept_in (inl e) = subst (λ o. IsKeptIn o result.config) (sym e) tt
        kept_in (inr (w, e)) =
            subst (λ o. IsKeptIn o result.config) (sym e) (written-IsKept writable u c w s e)
