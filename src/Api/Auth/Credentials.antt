-- ===== src/Api/Auth/Credentials.antt =====
-- What the checks of a token and of a password in internal/api/auth.go let through.
use elnssm.Common.{
  ◌⊎◌, inl, inr, ◌≢◌, str_eq_iff, Option, none, some, Bool, true, false, ◌≡◌, refl, sym, subst,
  arith, if◌then◌else◌,
}
use elnssm.Api.Sessions.{Bytes, SessionStore}
use elnssm.Api.Auth.Defs.{
  AuthConfig, Request, Library, anonymous, local_admin, token_user, named, Response, next,
  unauthorized, forbidden, is_loopback, is_empty, strip_prefix, bearer_prefix, basic_prefix,
  split_colon, same_bytes,
}
use elnssm.Api.Auth.Middleware.{
  token_auth, basic_auth, password_auth, scheme_auth, header_auth, query_auth,
}
use elnssm.Api.Auth.Access.{IsValid, HasAdminSession}

-- The user has the connection's session, which the store `sspi` mode keeps.
abbrev pub HasSession : AuthConfig → Request → Option SessionStore → Bytes → Type 0
HasSession cfg r none username = ⊥
HasSession cfg r (some ss) username = (cfg.type ≡ "sspi") × HasAdminSession r.conn_id ss username

-- The Authorization header is "Basic " and the base64 of the name, a colon and a password. The name
-- is the configured one, and the password fits the configured hash.
abbrev pub HasPassword : Library → AuthConfig → Request → Bytes → Type 0
HasPassword lib cfg r username =
    (is_empty cfg.username ≡ false)
    × (same_bytes username cfg.username ≡ true)
    × (cfg.password_hash ≢ "")
    × (password : Bytes) × (text : Bytes) × (payload : Bytes) × (strip_prefix basic_prefix
          r.authorization
        ≡ some text)
    × (lib.base64 text ≡ some payload)
    × (split_colon payload ≡ some (username, password))
    × (lib.bcrypt cfg.password_hash password ≡ true)

-- The request brings the token: after "Bearer " in its Authorization header, or, where it asks for a
-- websocket, as its query parameter.
abbrev pub IsCarried : Request → Bytes → Type 0
IsCarried r token =
    (strip_prefix bearer_prefix r.authorization ≡ some token)
    ⊎ (r.websocket ≡ true) × (r.query_token ≡ token)

abbrev pub HasToken : Library → AuthConfig → Request → Type 0
HasToken lib cfg r =
    (cfg.token_hash ≢ "")
    × (token : Bytes) × IsCarried r token
    × (lib.bcrypt cfg.token_hash token ≡ true)

-- What lets a user through, the store being `store` afterwards.
abbrev pub IsJustified : Library → AuthConfig → Request → Option SessionStore → Response → Type 0
IsJustified lib cfg r store (next anonymous) = cfg.enabled ≡ false
IsJustified lib cfg r store (next local_admin) =
    (cfg.allow_local_bypass ≡ true) × (is_loopback r.client_ip ≡ true)
IsJustified lib cfg r store (next token_user) = HasToken lib cfg r
IsJustified lib cfg r store (next (named username)) =
    HasSession cfg r store username ⊎ HasPassword lib cfg r username
IsJustified lib cfg r store unauthorized = Unit
IsJustified lib cfg r store forbidden = Unit

abbrev pub IsValidStore : Option SessionStore → Type 0
IsValidStore none = Unit
IsValidStore (some ss) = IsValid ss

-- Either branch of a test, each with its outcome.
pub if_then_else :
    {A : Type 0} (P : A → Type 0) (b : Bool) {x y : A}
    → (b ≡ true → P x)
    → (b ≡ false → P y)
    → P (if b then x else y)
if_then_else P true p q = p refl
if_then_else P false p q = q refl

token_auth_cases :
    (lib : Library) (cfg : AuthConfig) (token : Bytes)
    → (token_auth lib cfg token ≡ next token_user)
        × (cfg.token_hash ≢ "")
        × (lib.bcrypt cfg.token_hash token ≡ true)
      ⊎ (token_auth lib cfg token ≡ unauthorized)
unfolding token_auth
token_auth_cases lib cfg token = ground (arith, str_eq_iff cfg.token_hash "")

pub token_auth-IsJustified :
    (lib : Library) (cfg : AuthConfig) (r : Request) (store : Option SessionStore) (token : Bytes)
    → IsCarried r token
    → IsJustified lib cfg r store (token_auth lib cfg token)
token_auth-IsJustified lib cfg r store token c = elim (token_auth_cases lib cfg token) [
  | inl (e, h, b) ↦ subst (IsJustified lib cfg r store) (sym e) (h, token, c, b)
  | inr e ↦ subst (IsJustified lib cfg r store) (sym e) tt
]

pub query_auth-IsJustified :
    (lib : Library) (cfg : AuthConfig) (r : Request) (store : Option SessionStore)
    → r.websocket ≡ true
    → IsJustified lib cfg r store (query_auth lib cfg r)
query_auth-IsJustified lib cfg r store w =
    if_then_else (IsJustified lib cfg r store) (is_empty r.query_token) (λ _. tt)
      (λ _. token_auth-IsJustified lib cfg r store r.query_token (inr (w, refl)))

password_auth_cases :
    (lib : Library) (cfg : AuthConfig) (username password : Bytes)
    → (password_auth lib cfg (some (username, password)) ≡ next (named username))
        × (is_empty cfg.username ≡ false)
        × (same_bytes username cfg.username ≡ true)
        × (cfg.password_hash ≢ "")
        × (lib.bcrypt cfg.password_hash password ≡ true)
      ⊎ (password_auth lib cfg (some (username, password)) ≡ unauthorized)
unfolding password_auth
password_auth_cases lib cfg username password = ground (arith, str_eq_iff cfg.password_hash "")

password_auth-IsJustified :
    (lib : Library) (cfg : AuthConfig) (r : Request) (store : Option SessionStore)
    (text payload : Bytes) (given : Option (Bytes × Bytes))
    → strip_prefix basic_prefix r.authorization ≡ some text
    → lib.base64 text ≡ some payload
    → split_colon payload ≡ given
    → IsJustified lib cfg r store (password_auth lib cfg given)
unfolding password_auth
password_auth-IsJustified lib cfg r store text payload none t p g = tt
password_auth-IsJustified lib cfg r store text payload (some (username, password)) t p g =
    elim (password_auth_cases lib cfg username password) [
      | inl (e, n, u, h, b) ↦
          subst (IsJustified lib cfg r store) (sym e)
            (inr (n, u, h, password, text, payload, t, p, g, b))
      | inr e ↦ subst (IsJustified lib cfg r store) (sym e) tt
    ]

basic_auth-IsJustified :
    (lib : Library) (cfg : AuthConfig) (r : Request) (store : Option SessionStore) (text : Bytes)
    (decoded : Option Bytes)
    → strip_prefix basic_prefix r.authorization ≡ some text
    → lib.base64 text ≡ decoded
    → IsJustified lib cfg r store (basic_auth lib cfg decoded)
unfolding basic_auth
basic_auth-IsJustified lib cfg r store text none t p = tt
basic_auth-IsJustified lib cfg r store text (some payload) t p =
    password_auth-IsJustified lib cfg r store text payload (split_colon payload) t p refl

scheme_auth-IsJustified :
    (lib : Library) (cfg : AuthConfig) (r : Request) (store : Option SessionStore)
    (bearer basic : Option Bytes)
    → strip_prefix bearer_prefix r.authorization ≡ bearer
    → strip_prefix basic_prefix r.authorization ≡ basic
    → IsJustified lib cfg r store (scheme_auth lib cfg bearer basic)
unfolding scheme_auth
scheme_auth-IsJustified lib cfg r store (some token) basic b c =
    token_auth-IsJustified lib cfg r store token (inl b)
scheme_auth-IsJustified lib cfg r store none (some text) b c =
    basic_auth-IsJustified lib cfg r store text (lib.base64 text) c refl
scheme_auth-IsJustified lib cfg r store none none b c = tt

pub header_auth-IsJustified :
    (lib : Library) (cfg : AuthConfig) (r : Request) (store : Option SessionStore)
    → IsJustified lib cfg r store (header_auth lib cfg r)
unfolding header_auth
header_auth-IsJustified lib cfg r store =
    if_then_else (IsJustified lib cfg r store) r.websocket (query_auth-IsJustified lib cfg r store)
      (λ _.
        if_then_else (IsJustified lib cfg r store) (is_empty r.authorization) (λ _. tt)
          (λ _. scheme_auth-IsJustified lib cfg r store _ _ refl refl))
