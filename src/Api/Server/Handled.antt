-- ===== src/Api/Server/Handled.antt =====
-- Whose requests the router of internal/api/server.go lets through to the API's handlers.
use elnssm.Common.{ℕ, Option, Bool, true, ◌≡◌}
use elnssm.Api.RateLimiter.{RateLimiter, allow}
use elnssm.Api.Auth.{Request, Library, ip_whitelist}
use elnssm.Api.Auth.Credentials.{IsJustified, IsValidStore, if_then_else}
use elnssm.Api.Auth.Grants.{auth_middleware-IsSafe}
use elnssm.Api.Server.{
  SessionStore, Server, Reply, blocked, limited, page, authenticated, authenticate, serve_api,
  serve,
}

-- A request that is blocked or limited has no claim to make, nor has one for the embedded pages.
abbrev pub IsAllowed : Library → Server → Request → Option SessionStore → Reply → Type 0
IsAllowed lib s r store blocked = Unit
IsAllowed lib s r store limited = Unit
IsAllowed lib s r store page = Unit
IsAllowed lib s r store (authenticated response) =
    (ip_whitelist s.whitelist r.client_ip ≡ true) × IsJustified lib s.auth r store response

abbrev pub IsGuarded : Library → Server → Request → Server × Reply → Type 0
IsGuarded lib s r (s', reply) = IsValidStore s'.sspi_store × IsAllowed lib s r s'.sspi_store reply

authenticate-IsGuarded :
    (lib : Library) (now : ℕ) (r : Request) (s : Server) (l : RateLimiter)
    → IsValidStore s.sspi_store
    → ip_whitelist s.whitelist r.client_ip ≡ true
    → IsGuarded lib s r (authenticate lib now r (record s { api_limiter = l }))
unfolding authenticate
authenticate-IsGuarded lib now r s l v w =
    let safe = auth_middleware-IsSafe lib s.auth now r s.sspi_store v in (safe.0, (w, safe.1))

serve_api-IsGuarded :
    (lib : Library) (now : ℕ) (r : Request) (s : Server)
    → IsValidStore s.sspi_store
    → ip_whitelist s.whitelist r.client_ip ≡ true
    → IsGuarded lib s r (serve_api lib now r s)
unfolding serve_api
serve_api-IsGuarded lib now r s v w =
    let (l, answer) = allow now r.client_ip s.api_limiter in
    if_then_else (IsGuarded lib s r) answer (λ _. authenticate-IsGuarded lib now r s l v w)
      (λ _. (v, tt))

-- If each authenticated session is an administrator's, a request leaves it so, whatever its path. It
-- gets to a handler of the API only from an address of the whitelist and with a reason for the
-- user it runs as: authentication is off; the bypass for a loopback address is on; the request
-- carries, after "Bearer " or in the query of a websocket, a token that fits the hash that is set;
-- its "Basic " header decodes to the configured name, which it runs as, and a password that fits the
-- hash that is set; or its connection has an authenticated session of an administrator of that name.
pub serve-IsGuarded :
    (lib : Library) (is_api : Bool) (now : ℕ) (r : Request) (s : Server)
    → IsValidStore s.sspi_store
    → IsGuarded lib s r (serve lib is_api now r s)
unfolding serve
serve-IsGuarded lib is_api now r s v =
    if_then_else (IsGuarded lib s r) (ip_whitelist s.whitelist r.client_ip)
      (λ w.
        if_then_else (IsGuarded lib s r) is_api (λ _. serve_api-IsGuarded lib now r s v w)
          (λ _. (v, tt)))
      (λ _. (v, tt))
