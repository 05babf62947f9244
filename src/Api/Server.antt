-- ===== src/Api/Server.antt =====
-- internal/api/server.go: the server's own state and the way of a request through the middleware of
-- buildRouter (internal/api/middleware.go and ratelimit.go), up to the handler. The limit on the
-- body's size is the reader's, and the table of routes is chi's.
pub mod Handled
pub mod Quota
pub mod Tried
use elnssm.Common.{
  ℕ, String, str_eq, List, [], ◌∷◌, Option, none, some, Bool, pos, if◌then◌else◌, ◌&&◌,
}
use mathlib.Core.Option as Option
use elnssm.Api.Sessions.{SessionStore, remove, evict_stale}
use elnssm.Api.RateLimiter.{RateLimiter, allow, cleanup}
use elnssm.Api.Auth.{AuthConfig, Request, Library, Response, ip_whitelist, auth_middleware}

-- A server with its configuration. The store of sessions is none where the server has none.
pub record Server : Type 0 where
  pub whitelist : List String
  pub auth : AuthConfig
  pub api_limiter : RateLimiter
  pub sspi_store : Option SessionStore

-- What the client gets, or whose handler runs: the embedded pages, or a route of the API where the
-- authentication answers `next`.
pub data Reply : Type 0 where
  blocked limited page : Reply
  authenticated : Response → Reply

-- NewRateLimiter, whose window is in nanoseconds.
unfoldable pub new_rate_limiter : ℕ → ℕ → RateLimiter
new_rate_limiter rate window = record { clients = []; rate = pos rate; window = window }

-- sspi.NewSessionStore, unless it fails.
abbrev pub made_store : Bool → Option SessionStore
made_store available = if available then some (record { sessions = []; deleted = [] }) else none

-- NewServer, with whether NewSessionStore succeeds.
unfoldable pub new_server : Bool → List String → AuthConfig → Server
unfolding new_rate_limiter
new_server available whitelist auth = record {
  whitelist = whitelist;
  auth = auth;
  api_limiter = new_rate_limiter 120 60000000000;
  sspi_store = if auth.enabled && str_eq auth.type "sspi" then made_store available else none;
}

-- authMiddleware in front of the API's handlers.
unfoldable pub authenticate : Library → ℕ → Request → Server → Server × Reply
unfolding auth_middleware
authenticate lib now r s =
    let (store, response) = auth_middleware lib s.auth now r s.sspi_store in
    (record s { sspi_store = store }, authenticated response)

-- The middleware under /api/v1.
unfoldable pub serve_api : Library → ℕ → Request → Server → Server × Reply
unfolding allow authenticate
serve_api lib now r s =
    let (limiter, answer) = allow now r.client_ip s.api_limiter in
    let rest = authenticate lib now r (record s { api_limiter = limiter }) in
    if answer then rest else (record s { api_limiter = limiter }, limited)

-- The whole router: whether the path is under /api/v1 comes first.
unfoldable pub serve : Library → Bool → ℕ → Request → Server → Server × Reply
unfolding ip_whitelist serve_api
serve lib is_api now r s =
    let api = serve_api lib now r s in
    if ip_whitelist s.whitelist r.client_ip
    then (if is_api then api else (s, page))
    else (s, blocked)

-- What happens to a server: a request, the end of a connection (ConnState), and the ticks of the
-- limiter's cleanup and of the sessions' eviction.
pub data Arrival : Type 0 where
  request : Bool → ℕ → Request → Arrival
  closed : String → Arrival
  cleanup_tick eviction_tick : ℕ → Arrival

abbrev on_store : (SessionStore → SessionStore) → Server → Server
on_store f s = record s { sspi_store = Option.map f s.sspi_store }

unfoldable pub arrive : Library → Arrival → Server → Server
unfolding serve remove evict_stale cleanup
arrive lib (request is_api now r) s = (serve lib is_api now r s).0
arrive lib (closed conn) s = on_store (remove conn) s
arrive lib (cleanup_tick now) s = record s { api_limiter = cleanup now s.api_limiter }
arrive lib (eviction_tick now) s = on_store (evict_stale now) s

unfoldable pub run : Library → List Arrival → Server → Server
unfolding arrive
run lib [] s = s
run lib (a ∷ arrivals) s = run lib arrivals (arrive lib a s)
