-- ===== src/Api/Auth/Middleware.antt =====
-- internal/api/auth.go: authMiddleware and negotiateAuth.
use elnssm.Common.{ℕ, String, str_eq, Option, none, some, not, ◌&&◌, if◌then◌else◌}
use mathlib.Core.Option as Option
use elnssm.Api.Sessions.{
  Bytes, Session, SessionStore, fresh, challenge, complete, Accepted, Status, continue_needed, ok,
  unexpected, is_complete, get, get_or_create, put, remove, complete_session,
}
use elnssm.Api.Auth.Defs.{
  AuthConfig, Request, Library, anonymous, local_admin, token_user, named, Response, next,
  unauthorized, forbidden, is_loopback, strip_prefix, split_colon, same_bytes, is_empty,
  bearer_prefix, basic_prefix, negotiate_prefix,
}

-- The context of a handshake that is under way.
abbrev pub context_in : Session → Option ℕ
context_in s = elim s.state [ fresh ↦ none | challenge ↦ s.ctx_handle | complete ↦ none ]

-- The end of a handshake: the second argument is what CompleteSession returns.
unfoldable pub finish : String → Option Session → SessionStore → SessionStore × Response
unfolding put remove
finish conn none ss = (remove conn ss, unauthorized)
finish conn (some s) ss =
    if s.is_admin
    then (put conn s ss, next (named s.username))
    else (remove conn (put conn s ss), forbidden)

abbrev outcome : Accepted → ℕ × Status
outcome a = (a.ctx, a.status)

-- What follows AcceptSecurityContext, none where it fails. `s` is the session's shared object, which
-- the code writes to.
unfoldable pub after_accept :
    Library → ℕ → String → Session → Option (ℕ × Status) → SessionStore → SessionStore × Response
unfolding put remove complete_session finish
after_accept lib now conn s none ss = (remove conn ss, unauthorized)
after_accept lib now conn s (some (ctx, continue_needed)) ss =
    (put conn (record s { ctx_handle = some ctx; state = challenge }) ss, unauthorized)
after_accept lib now conn s (some (ctx, ok)) ss =
    finish conn (complete_session lib.sspi now s ctx) ss
after_accept lib now conn s (some (ctx, unexpected)) ss = (remove conn ss, unauthorized)

-- The step for a decoded token, none where it does not decode.
unfoldable pub negotiate_token :
    Library → ℕ → String → Option Bytes → SessionStore → SessionStore × Response
unfolding get_or_create remove after_accept
negotiate_token lib now conn none ss = (remove conn ss, unauthorized)
negotiate_token lib now conn (some client_token) ss =
    let got : SessionStore × Session = get_or_create now conn ss in
    after_accept lib now conn got.1
      (Option.map outcome (lib.sspi.accept (context_in got.1) client_token)) got.0

-- negotiateAuth on the text after "Negotiate ".
unfoldable pub negotiate_auth :
    Library → ℕ → String → Bytes → SessionStore → SessionStore × Response
unfolding negotiate_token
negotiate_auth lib now conn text ss = negotiate_token lib now conn (lib.base64 text) ss

-- The token against cfg.TokenHash, which is empty where none is set.
unfoldable pub token_auth : Library → AuthConfig → Bytes → Response
token_auth lib cfg token =
    if not (str_eq cfg.token_hash "") && lib.bcrypt cfg.token_hash token
    then next token_user
    else unauthorized

-- The name and the password against the configured ones; none where the payload has no colon.
unfoldable pub password_auth : Library → AuthConfig → Option (Bytes × Bytes) → Response
unfolding same_bytes
password_auth lib cfg none = unauthorized
password_auth lib cfg (some (username, password)) =
    if not (is_empty cfg.username)
      && not (str_eq cfg.password_hash "")
      && same_bytes username cfg.username
      && lib.bcrypt cfg.password_hash password
    then next (named username)
    else unauthorized

-- The branch for "Basic ", on the payload, which is none where base64 does not decode it.
unfoldable pub basic_auth : Library → AuthConfig → Option Bytes → Response
unfolding split_colon password_auth
basic_auth lib cfg none = unauthorized
basic_auth lib cfg (some payload) = password_auth lib cfg (split_colon payload)

-- The user of a connection that is authenticated already.
unfoldable pub session_user : Option Session → Option Bytes
session_user none = none
session_user (some s) = if is_complete s.state then some s.username else none

abbrev pub query_auth : Library → AuthConfig → Request → Response
query_auth lib cfg r =
    if is_empty r.query_token then unauthorized else token_auth lib cfg r.query_token

-- A Negotiate header starts a handshake or goes on with one; without it, the answer is the one given.
unfoldable pub negotiate_or :
    Library → ℕ → String → Option Bytes → Response → SessionStore → SessionStore × Response
unfolding negotiate_auth
negotiate_or lib now conn none otherwise ss = (ss, otherwise)
negotiate_or lib now conn (some text) otherwise ss = negotiate_auth lib now conn text ss

-- The branch for cfg.Type "sspi" on a websocket upgrade: the connection's user, if any, is first.
unfoldable pub sspi_websocket :
    Library → AuthConfig → ℕ → Request → Option Bytes → SessionStore → SessionStore × Response
unfolding negotiate_or strip_prefix
sspi_websocket lib cfg now r (some username) ss = (ss, next (named username))
sspi_websocket lib cfg now r none ss =
    negotiate_or lib now r.conn_id (strip_prefix negotiate_prefix r.authorization)
      (query_auth lib cfg r) ss

-- The user of the connection, where the request has no Authorization header that the code reads.
unfoldable pub sspi_session : Option Bytes → Response
sspi_session none = unauthorized
sspi_session (some username) = next (named username)

-- The same branch for another request: a bearer token, a Negotiate header, the connection's user.
unfoldable pub sspi_request :
    Library
    → AuthConfig
    → ℕ
    → Request
    → Option Bytes
    → Option Bytes
    → SessionStore
    → SessionStore × Response
unfolding get negotiate_auth token_auth session_user sspi_session
sspi_request lib cfg now r (some token) negotiate ss = (ss, token_auth lib cfg token)
sspi_request lib cfg now r none (some text) ss = negotiate_auth lib now r.conn_id text ss
sspi_request lib cfg now r none none ss =
    let got : SessionStore × Option Session = get now r.conn_id ss in
    (got.0, sspi_session (session_user got.1))

unfoldable pub sspi_auth :
    Library → AuthConfig → ℕ → Request → SessionStore → SessionStore × Response
unfolding get session_user strip_prefix sspi_websocket sspi_request
sspi_auth lib cfg now r ss =
    if r.websocket
    then (let got : SessionStore × Option Session = get now r.conn_id ss in
        sspi_websocket lib cfg now r (session_user got.1) got.0)
    else sspi_request lib cfg now r (strip_prefix bearer_prefix r.authorization)
        (strip_prefix negotiate_prefix r.authorization) ss

-- A header with "Bearer " or "Basic ", after which stands the token or the payload.
unfoldable pub scheme_auth : Library → AuthConfig → Option Bytes → Option Bytes → Response
unfolding token_auth basic_auth
scheme_auth lib cfg (some token) basic = token_auth lib cfg token
scheme_auth lib cfg none (some text) = basic_auth lib cfg (lib.base64 text)
scheme_auth lib cfg none none = unauthorized

-- The rest of the middleware, for "token" and "basic".
unfoldable pub header_auth : Library → AuthConfig → Request → Response
unfolding scheme_auth strip_prefix
header_auth lib cfg r =
    if r.websocket
    then query_auth lib cfg r
    else if is_empty r.authorization
    then unauthorized
    else scheme_auth lib cfg (strip_prefix bearer_prefix r.authorization)
        (strip_prefix basic_prefix r.authorization)

abbrev pub kept : SessionStore × Response → Option SessionStore × Response
kept (ss, response) = (some ss, response)

-- The authentication of a request that is not let through before. The session store is none where
-- the server has none.
unfoldable pub mode_auth :
    Library → AuthConfig → ℕ → Request → Option SessionStore → Option SessionStore × Response
unfolding sspi_auth header_auth
mode_auth lib cfg now r none = (none, header_auth lib cfg r)
mode_auth lib cfg now r (some ss) =
    if str_eq cfg.type "sspi"
    then kept (sspi_auth lib cfg now r ss)
    else (some ss, header_auth lib cfg r)

unfoldable pub auth_middleware :
    Library → AuthConfig → ℕ → Request → Option SessionStore → Option SessionStore × Response
unfolding is_loopback mode_auth
auth_middleware lib cfg now r store =
    if not cfg.enabled
    then (store, next anonymous)
    else if cfg.allow_local_bypass && is_loopback r.client_ip
    then (store, next local_admin)
    else mode_auth lib cfg now r store
