-- ===== src/Api/Auth/Grants.antt =====
-- Who authMiddleware (internal/api/auth.go) lets through to the handlers.
use elnssm.Common.{
  true, ℕ, inl, ◌≢◌, String, str_eq, str_eq_iff, Option, none, some, not, ◌&&◌, lookup, ◌≡◌, refl,
  sym, subst, arith,
}
use elnssm.Api.Sessions.{Bytes, Session, SessionStore, complete, get}
use elnssm.Api.Auth.Defs.{
  AuthConfig, Request, Library, anonymous, local_admin, token_user, named, Response, next,
  unauthorized, forbidden, is_loopback, strip_prefix, bearer_prefix,
}
use elnssm.Api.Auth.Middleware.{
  negotiate_auth, negotiate_token, negotiate_or, mode_auth, kept, query_auth, sspi_session,
  session_user, sspi_websocket, sspi_request, sspi_auth, auth_middleware,
}
use elnssm.Api.Auth.Access.{
  IsValid, IsGood, HasAdminSession, negotiate_token-IsGood, get-IsValid, get-some, get-none,
  put-lookup,
}
use elnssm.Api.Auth.Credentials.{
  IsJustified, IsValidStore, if_then_else, token_auth-IsJustified, query_auth-IsJustified,
  header_auth-IsJustified,
}

-- A run of the middleware leaves a valid store and lets through who is justified.
abbrev pub IsSafe : Library → AuthConfig → Request → Option SessionStore × Response → Type 0
IsSafe lib cfg r out = IsValidStore out.0 × IsJustified lib cfg r out.0 out.1

negotiated-IsSafe :
    (lib : Library) (cfg : AuthConfig) (r : Request) (ss : SessionStore) (response : Response)
    → cfg.type ≡ "sspi"
    → IsGood r.conn_id (ss, response)
    → IsSafe lib cfg r (some ss, response)
negotiated-IsSafe lib cfg r ss (next anonymous) e h = elim h.1 [ ]
negotiated-IsSafe lib cfg r ss (next local_admin) e h = elim h.1 [ ]
negotiated-IsSafe lib cfg r ss (next token_user) e h = elim h.1 [ ]
negotiated-IsSafe lib cfg r ss (next (named username)) e (v, h) = (v, inl (e, h))
negotiated-IsSafe lib cfg r ss unauthorized e (v, h) = (v, tt)
negotiated-IsSafe lib cfg r ss forbidden e (v, h) = (v, tt)

negotiate_or-IsSafe :
    (lib : Library) (cfg : AuthConfig) (now : ℕ) (r : Request) (text : Option Bytes)
    (ss : SessionStore)
    → r.websocket ≡ true
    → cfg.type ≡ "sspi"
    → IsValid ss
    → IsSafe lib cfg r (kept (negotiate_or lib now r.conn_id text (query_auth lib cfg r) ss))
unfolding negotiate_or negotiate_auth
negotiate_or-IsSafe lib cfg now r none ss ws e v =
    (v, query_auth-IsJustified lib cfg r (some ss) ws)
negotiate_or-IsSafe lib cfg now r (some text) ss ws e v =
    negotiated-IsSafe lib cfg r (negotiate_token lib now r.conn_id (lib.base64 text) ss).0 _ e
      (negotiate_token-IsGood lib now r.conn_id (lib.base64 text) ss v)

session_user_complete :
    (s : Session) (username : Bytes)
    → session_user (some s) ≡ some username
    → (s.state ≡ complete) × (s.username ≡ username)
unfolding session_user
session_user_complete s username u = ground arith

session_user-none : (username : Bytes) → session_user none ≢ some username
unfolding session_user
session_user-none username u = ground arith

-- The session that `get` returns is the one that the store then has.
session_user-HasAdminSession :
    (now : ℕ) (conn : String) (ss : SessionStore) (found : Option Session) (username : Bytes)
    → lookup conn ss.sessions ≡ found
    → IsValid ss
    → session_user (get now conn ss).1 ≡ some username
    → HasAdminSession conn (get now conn ss).0 username
session_user-HasAdminSession now conn ss none username e v u =
    elim (session_user-none username
      (subst (λ x. session_user x.1 ≡ some username) (get-none now conn ss e) u)) [ ]
session_user-HasAdminSession now conn ss (some s) username e v u =
    let seen : Session = record s { touched_at = now } in
    let c : (s.state ≡ complete) × (s.username ≡ username) =
      session_user_complete seen username
        (subst (λ x. session_user x.1 ≡ some username) (get-some now conn ss s e) u) in
    subst (λ x. HasAdminSession conn x.0 username) (sym (get-some now conn ss s e))
      (seen, put-lookup conn seen ss, c.0, v conn s e c.0, c.1)

sspi_websocket-IsSafe :
    (lib : Library) (cfg : AuthConfig) (now : ℕ) (r : Request) (user : Option Bytes)
    (ss : SessionStore)
    → r.websocket ≡ true
    → cfg.type ≡ "sspi"
    → IsValid ss
    → ((username : Bytes) → user ≡ some username → HasAdminSession r.conn_id ss username)
    → IsSafe lib cfg r (kept (sspi_websocket lib cfg now r user ss))
unfolding sspi_websocket
sspi_websocket-IsSafe lib cfg now r none ss ws e v h = negotiate_or-IsSafe lib cfg now r _ ss ws e v
sspi_websocket-IsSafe lib cfg now r (some username) ss ws e v h = (v, inl (e, h username refl))

sspi_session-IsJustified :
    (lib : Library) (cfg : AuthConfig) (r : Request) (ss : SessionStore) (user : Option Bytes)
    → cfg.type ≡ "sspi"
    → ((username : Bytes) → user ≡ some username → HasAdminSession r.conn_id ss username)
    → IsJustified lib cfg r (some ss) (sspi_session user)
unfolding sspi_session
sspi_session-IsJustified lib cfg r ss none e h = tt
sspi_session-IsJustified lib cfg r ss (some username) e h = inl (e, h username refl)

sspi_request-IsSafe :
    (lib : Library) (cfg : AuthConfig) (now : ℕ) (r : Request) (bearer text : Option Bytes)
    (ss : SessionStore)
    → strip_prefix bearer_prefix r.authorization ≡ bearer
    → cfg.type ≡ "sspi"
    → IsValid ss
    → IsSafe lib cfg r (kept (sspi_request lib cfg now r bearer text ss))
unfolding sspi_request negotiate_auth
sspi_request-IsSafe lib cfg now r (some token) text ss b e v =
    (v, token_auth-IsJustified lib cfg r (some ss) token (inl b))
sspi_request-IsSafe lib cfg now r none (some text) ss b e v =
    negotiated-IsSafe lib cfg r (negotiate_token lib now r.conn_id (lib.base64 text) ss).0 _ e
      (negotiate_token-IsGood lib now r.conn_id (lib.base64 text) ss v)
sspi_request-IsSafe lib cfg now r none none ss b e v = (
  get-IsValid now r.conn_id ss (lookup r.conn_id ss.sessions) refl v,
  sspi_session-IsJustified lib cfg r (get now r.conn_id ss).0 _ e
      (λ username. session_user-HasAdminSession now r.conn_id ss _ username refl v),
)

sspi_auth-IsSafe :
    (lib : Library) (cfg : AuthConfig) (now : ℕ) (r : Request) (ss : SessionStore)
    → cfg.type ≡ "sspi"
    → IsValid ss
    → IsSafe lib cfg r (kept (sspi_auth lib cfg now r ss))
unfolding sspi_auth
sspi_auth-IsSafe lib cfg now r ss e v =
    if_then_else (λ out. IsSafe lib cfg r (kept out)) r.websocket
      (λ ws.
        sspi_websocket-IsSafe lib cfg now r _ (get now r.conn_id ss).0 ws e
          (get-IsValid now r.conn_id ss (lookup r.conn_id ss.sessions) refl v)
          (λ username. session_user-HasAdminSession now r.conn_id ss _ username refl v))
      (λ _. sspi_request-IsSafe lib cfg now r _ _ ss refl e v)

mode_auth-IsSafe :
    (lib : Library) (cfg : AuthConfig) (now : ℕ) (r : Request) (store : Option SessionStore)
    → IsValidStore store
    → IsSafe lib cfg r (mode_auth lib cfg now r store)
unfolding mode_auth
mode_auth-IsSafe lib cfg now r none v = (tt, header_auth-IsJustified lib cfg r none)
mode_auth-IsSafe lib cfg now r (some ss) v =
    if_then_else (IsSafe lib cfg r) (str_eq cfg.type "sspi")
      (λ e. sspi_auth-IsSafe lib cfg now r ss ((str_eq_iff cfg.type "sspi").0 e) v)
      (λ _. (v, header_auth-IsJustified lib cfg r (some ss)))

-- If each authenticated session of the store is an administrator's, a request leaves it so, and it
-- reaches the handlers only with a reason. As "anonymous", authentication is off; as "local-admin", the bypass is on and
-- the client is a loopback address; as "token-user", a token that it carries after "Bearer ", or in the
-- query of a websocket, fits the hash that is set; under another name, the mode is "sspi" and the
-- connection has an authenticated session of an administrator of that name, or its "Basic " header
-- decodes to that name, which is the configured one, and a password that fits its hash.
pub auth_middleware-IsSafe :
    (lib : Library) (cfg : AuthConfig) (now : ℕ) (r : Request) (store : Option SessionStore)
    → IsValidStore store
    → IsSafe lib cfg r (auth_middleware lib cfg now r store)
unfolding auth_middleware
auth_middleware-IsSafe lib cfg now r store v =
    if_then_else (IsSafe lib cfg r) (not cfg.enabled) (λ e. (v, ground arith))
      (λ _.
        if_then_else (IsSafe lib cfg r) (cfg.allow_local_bypass && is_loopback r.client_ip)
          (λ e. (v, ground arith)) (λ _. mode_auth-IsSafe lib cfg now r store v))
