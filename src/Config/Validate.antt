-- ===== src/Config/Validate.antt =====
-- internal/config/config.go: Validate.
use elnssm.Common.{
  String, str_eq, str_eq_iff, List, [], ◌∷◌, Option, none, some, Bool, true, false, not, ◌||◌,
  is_some, ◌≡◌, inl, inr, Bool-cases, refl, arith, if◌then◌else◌,
}
use text.Mathlib.Text.{find?}
use elnssm.Config.Global.{Config, AuthConfig}

pub data Invalid : Type 0 where
  cidr bad_ip : String → Invalid
  no_token_hash no_basic : Invalid
  unknown_auth : String → Invalid

module _ (parse_ip : String → Bool) where  -- net.ParseIP(s) != nil
  unfoldable pub check_whitelist : List String → Option Invalid
  check_whitelist [] = none
  check_whitelist (ip ∷ ips) =
      let rest = check_whitelist ips in
      if is_some (find? ip "/")
      then some (cidr ip)
      else if not (parse_ip ip)
      then some (bad_ip ip)
      else rest

  unfoldable pub check_auth : AuthConfig → Option Invalid
  check_auth auth =
      if not auth.enabled
      then none
      else if str_eq auth.type "token"
      then (if str_eq auth.token_hash "" then some no_token_hash else none)
      else if str_eq auth.type "basic"
      then (if str_eq auth.username "" || str_eq auth.password_hash "" then some no_basic else none)
      else if str_eq auth.type "sspi"
      then none
      else some (unknown_auth auth.type)

  abbrev first_error : Option Invalid → Option Invalid → Option Invalid
  first_error none second = second
  first_error (some e) second = some e

  unfoldable pub validate : Config → Option Invalid
  validate c = first_error (check_whitelist c.api.ip_whitelist) (check_auth c.api.auth)

  -- Each address of the whitelist is a single one.
  abbrev pub AreSingle : List String → Type 0
  AreSingle [] = Unit
  AreSingle (ip ∷ ips) = (find? ip "/" ≡ none) × (parse_ip ip ≡ true) × AreSingle ips

  -- How the API may be left open, or how its callers are known.
  pub data IsGuarded (auth : AuthConfig) : Type 0 where
    disabled : auth.enabled ≡ false → IsGuarded auth
    by_token : auth.type ≡ "token" → (auth.token_hash ≡ "" → ⊥) → IsGuarded auth
    by_basic :
        auth.type ≡ "basic"
        → (auth.username ≡ "" → ⊥)
        → (auth.password_hash ≡ "" → ⊥)
        → IsGuarded auth
    by_sspi : auth.type ≡ "sspi" → IsGuarded auth

  check_whitelist-AreSingle :
      (ips : List String)
      → (check_whitelist ips ≡ none → AreSingle ips) × (AreSingle ips → check_whitelist ips ≡ none)
  unfolding check_whitelist
  check_whitelist-AreSingle [] = (λ h. tt, λ h. refl)
  check_whitelist-AreSingle (ip ∷ ips) =
      let rest = check_whitelist-AreSingle ips in
      (λ h. ground (arith, h, rest.0), λ h. ground (arith, h, rest.1))

  check_auth-IsGuarded : (auth : AuthConfig) → check_auth auth ≡ none → IsGuarded auth
  unfolding check_auth
  check_auth-IsGuarded auth h = elim (Bool-cases auth.enabled) [
    | inr e ↦ disabled e
    | inl e ↦ elim (Bool-cases (str_eq auth.type "token")) [
      | inl t ↦
          by_token ((str_eq_iff auth.type "token").0 t)
            (λ z. ground (arith, h, e, t, str_eq_iff auth.token_hash "", z))
      | inr nt ↦ elim (Bool-cases (str_eq auth.type "basic")) [
        | inl b ↦
            by_basic ((str_eq_iff auth.type "basic").0 b)
              (λ z. ground (arith, h, e, nt, b, str_eq_iff auth.username "", z))
              (λ z. ground (arith, h, e, nt, b, str_eq_iff auth.password_hash "", z))
        | inr nb ↦ by_sspi (ground (arith, h, e, nt, nb, str_eq_iff auth.type "sspi"))
      ]
    ]
  ]

  -- A configuration that passes has single addresses in its whitelist, and authentication that is
  -- either switched off or of a known kind with the credentials that the kind needs.
  pub validate_sound :
      (c : Config) → validate c ≡ none → AreSingle c.api.ip_whitelist × IsGuarded c.api.auth
  unfolding validate
  validate_sound c h = (
    (check_whitelist-AreSingle c.api.ip_whitelist).0 (ground (arith, h)),
    check_auth-IsGuarded c.api.auth (ground (arith, h)),
  )
