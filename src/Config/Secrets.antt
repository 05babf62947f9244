-- ===== src/Config/Secrets.antt =====
-- internal/config/config.go: EncryptSecrets, DecryptSecrets and Load. A secret is a plain text and its
-- encrypted form, one of which the configuration file should hold.
use elnssm.Common.{
  String, str_eq, List, [], ◌∷◌, Option, none, some, Bool, true, false, not, ◌&&◌, is_some,
  if◌then◌else◌,
}
use elnssm.Config.Global.{Config}
use elnssm.Config.Validate.{validate}

-- process.EncryptPassword and process.DecryptPassword, which call DPAPI; none is an error.
pub record Dpapi : Type 0 where
  pub encrypt : String → Option String
  pub decrypt : String → Option String

pub data Secret : Type 0 where
  smtp telegram ntfy master slave : Secret

abbrev pub Pair : Type 0
Pair = String × String

unfoldable pub secret : Secret → Config → Pair
secret smtp c = (c.smtp.password, c.smtp.encrypted_password)
secret telegram c = (c.telegram.bot_token, c.telegram.encrypted_bot_token)
secret ntfy c = (c.ntfy.token, c.ntfy.encrypted_token)
secret master c = (c.cluster.master_token, c.cluster.encrypted_master_token)
secret slave c = (c.cluster.slave_token, c.cluster.encrypted_slave_token)

unfoldable pub with_secret : Secret → Pair → Config → Config
with_secret smtp p c = record c {
  smtp = record c.smtp { password = p.0; encrypted_password = p.1 };
}
with_secret telegram p c = record c {
  telegram = record c.telegram { bot_token = p.0; encrypted_bot_token = p.1 };
}
with_secret ntfy p c = record c { ntfy = record c.ntfy { token = p.0; encrypted_token = p.1 } }
with_secret master p c = record c {
  cluster = record c.cluster { master_token = p.0; encrypted_master_token = p.1 };
}
with_secret slave p c = record c {
  cluster = record c.cluster { slave_token = p.0; encrypted_slave_token = p.1 };
}

-- The order in which both functions take them.
abbrev pub secrets : List Secret
secrets = smtp ∷ telegram ∷ ntfy ∷ master ∷ slave ∷ []

abbrev pub encrypt_pair : Dpapi → Pair → Option Pair
encrypt_pair k p =
    if str_eq p.0 "" then some p else elim (k.encrypt p.0) [ none ↦ none | some x ↦ some ("", x) ]

abbrev pub decrypt_pair : Dpapi → Pair → Option Pair
decrypt_pair k p =
    if not (str_eq p.1 "") && str_eq p.0 ""
    then elim (k.decrypt p.1) [ none ↦ none | some plain ↦ some (plain, p.1) ]
    else some p

-- The first error ends it, and what is done by then stays done.
abbrev pub on_pair : (Pair → Config × Bool) → Config → Option Pair → Config × Bool
on_pair next c none = (c, false)
on_pair next c (some p) = next p

unfoldable pub update_secrets : (Pair → Option Pair) → List Secret → Config → Config × Bool
update_secrets f [] c = (c, true)
update_secrets f (s ∷ ss) c =
    on_pair (λ p. update_secrets f ss (with_secret s p c)) c (f (secret s c))

unfoldable pub encrypt_secrets : Dpapi → Config → Config × Bool
encrypt_secrets k = update_secrets (encrypt_pair k) secrets

unfoldable pub decrypt_secrets : Dpapi → Config → Config × Bool
decrypt_secrets k = update_secrets (decrypt_pair k) secrets

-- What the file decodes to over the defaults, if it can be read; and whether Save can write it.
pub record Disk : Type 0 where
  pub decoded : Option Config
  pub writable : Bool

-- The configuration that is returned, and what the file then holds if it is written.
pub record Loaded : Type 0 where
  pub returned : Option Config
  pub written : Option Config

unfoldable pub load : Dpapi → (String → Bool) → String → Disk → Loaded
load k parse_ip path disk = elim disk.decoded [
  | none ↦ record { returned = none; written = none }
  | some decoded ↦
      let cfg = record decoded { file_path = path } in
      let encrypted = encrypt_secrets k cfg in
      if is_some (validate parse_ip cfg)
      then record { returned = none; written = none }
      else record {
        returned = some (decrypt_secrets k encrypted.0).0;
        written = if encrypted.1 && disk.writable then some encrypted.0 else none;
      }
]
