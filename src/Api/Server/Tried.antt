-- ===== src/Api/Server/Tried.antt =====
-- How many requests of one address the router of internal/api/server.go passes on to the
-- authentication, in any minute of a server's life.
use elnssm.Common.{
  ℕ, ◌+◌, ◌≤◌, ◌<◌, ◌⊎◌, inl, inr, String, List, [], ◌∷◌, Option, some, Bool, true, false, lookup,
  lookup-insert, ◌≡◌, refl, arith, str_eq, str_eq_iff, ◌&&◌, if◌then◌else◌,
}
use elnssm.Api.RateLimiter.Defs.{Bucket, RateLimiter, allow_bucket, allow, cleanup}
use elnssm.Api.Auth.{AuthConfig, Request, Library}
use elnssm.Api.Server.{
  Server, Reply, blocked, limited, page, authenticated, authenticate, serve_api, serve, Arrival,
  request, closed, cleanup_tick, eviction_tick, arrive, run, new_server, new_rate_limiter,
}
use elnssm.Api.Server.Quota.{
  once, budget, budget-allow_bucket, budget-kept_bucket, IsLimiter, allow-IsLimiter,
  cleanup-IsLimiter, budget_few, lookup-drop_old,
}

abbrev pub is_tried : Reply → Bool
is_tried blocked = false
is_tried limited = false
is_tried page = false
is_tried (authenticated response) = true

-- Whether an arrival is a request of the address that gets to the authentication.
unfoldable pub is_counted : Library → String → Arrival → Server → Bool
unfolding serve
is_counted lib ip (request is_api now r) s =
    str_eq r.client_ip ip && is_tried (serve lib is_api now r s).1
is_counted lib ip (closed conn) s = false
is_counted lib ip (cleanup_tick now) s = false
is_counted lib ip (eviction_tick now) s = false

-- How many of the arrivals are.
unfoldable pub tried : Library → String → List Arrival → Server → ℕ
unfolding is_counted arrive
tried lib ip [] s = 0
tried lib ip (a ∷ arrivals) s =
    (if is_counted lib ip a s then 1 else 0) + tried lib ip arrivals (arrive lib a s)

-- A minute from `start` on, in nanoseconds.
abbrev pub IsIn : ℕ → Arrival → Type 0
IsIn start (request is_api now r) = (start ≤ now) × (now < start + 60000000000)
IsIn start (closed conn) = Unit
IsIn start (cleanup_tick now) = (start ≤ now) × (now < start + 60000000000)
IsIn start (eviction_tick now) = Unit

abbrev pub AreIn : ℕ → List Arrival → Type 0
AreIn start [] = Unit
AreIn start (a ∷ arrivals) = IsIn start a × AreIn start arrivals

-- A request leaves the limiter alone and is not tried, or it is tried as the limiter allows.
serve_cases :
    (lib : Library) (is_api : Bool) (now : ℕ) (r : Request) (s : Server)
    → let (s', reply) = serve lib is_api now r s in
      let (limiter, answer) = allow now r.client_ip s.api_limiter in
      (s'.api_limiter ≡ s.api_limiter) × (is_tried reply ≡ false)
      ⊎ (s'.api_limiter ≡ limiter) × (is_tried reply ≡ answer)
unfolding serve serve_api authenticate
serve_cases lib is_api now r s = ground arith

arrive-IsLimiter :
    (lib : Library) (ip : String) (a : Arrival) (s : Server)
    → IsLimiter ip s.api_limiter
    → IsLimiter ip (arrive lib a s).api_limiter
unfolding arrive
arrive-IsLimiter lib ip (request is_api now r) s h = elim (serve_cases lib is_api now r s) [
  | inl (e, _) ↦ rw e h
  | inr (e, _) ↦ rw e (allow-IsLimiter ip r.client_ip now s.api_limiter h)
]
arrive-IsLimiter lib ip (closed conn) s h = h
arrive-IsLimiter lib ip (cleanup_tick now) s h = cleanup-IsLimiter ip now s.api_limiter h
arrive-IsLimiter lib ip (eviction_tick now) s h = h

run-IsLimiter :
    (lib : Library) (ip : String) (arrivals : List Arrival) (s : Server)
    → IsLimiter ip s.api_limiter
    → IsLimiter ip (run lib arrivals s).api_limiter
unfolding run
run-IsLimiter lib ip [] s h = h
run-IsLimiter lib ip (a ∷ arrivals) s h =
    run-IsLimiter lib ip arrivals (arrive lib a s) (arrive-IsLimiter lib ip a s h)

cost_lem :
    (start : ℕ) (mine answer : Bool) (entry : Bucket) (found : Option Bucket)
    → (mine ≡ true
        → (if answer then 1 else 0) + budget 119 start (some entry) ≤ budget 119 start found)
    → (if mine && answer then 1 else 0) + budget 119 start (if mine then some entry else found)
      ≤ budget 119 start found
cost_lem start true answer entry found h = h refl
cost_lem start false answer entry found h = omega arith

-- A call of the limiter for any address costs the budget of `ip` what it lets through for `ip`.
budget-allow :
    (ip other : String) (start now : ℕ) (rl : RateLimiter)
    → IsLimiter ip rl
    → start ≤ now
    → now < start + 60000000000
    → let (rl', answer) = allow now other rl in
      (if str_eq other ip && answer then 1 else 0) + budget 119 start (lookup ip rl'.clients)
      ≤ budget 119 start (lookup ip rl.clients)
unfolding allow
budget-allow ip other start now rl (e, w, k, h) a b =
    let (entry, answer) = allow_bucket rl.rate rl.window now (lookup other rl.clients) in
    let mine : other ≡ ip
        → (if answer then 1 else 0) + budget 119 start (some entry)
          ≤ budget 119 start (lookup ip rl.clients) =
      λ o.
        rw (e, o) (budget-allow_bucket 119 start now rl.window (lookup ip rl.clients) a (rw w b)) in
    rw (lookup-insert other ip entry rl.clients) (
      cost_lem start (str_eq other ip) answer entry (lookup ip rl.clients)
        (λ t. mine ((str_eq_iff other ip).0 t)))

budget-arrive :
    (lib : Library) (ip : String) (start : ℕ) (a : Arrival) (s : Server)
    → IsLimiter ip s.api_limiter
    → IsIn start a
    → (if is_counted lib ip a s then 1 else 0)
        + budget 119 start (lookup ip (arrive lib a s).api_limiter.clients)
      ≤ budget 119 start (lookup ip s.api_limiter.clients)
unfolding is_counted arrive
budget-arrive lib ip start (request is_api now r) s h (a, b) =
    elim (serve_cases lib is_api now r s) [
      | inl (e, f) ↦ rw (e, f) (ground arith)
      | inr (e, f) ↦ rw (e, f) (budget-allow ip r.client_ip start now s.api_limiter h a b)
    ]
budget-arrive lib ip start (closed conn) s h i = omega arith
budget-arrive lib ip start (cleanup_tick now) s (e, w, k, h) (a, b) =
    unfold cleanup in
    rw (lookup-drop_old ip s.api_limiter.window now s.api_limiter.clients k) (
      omega (
        arith,
        budget-kept_bucket 119 start now s.api_limiter.window (lookup ip s.api_limiter.clients)
            (rw w b),
      ))
budget-arrive lib ip start (eviction_tick now) s h i = omega arith

tried-budget :
    (lib : Library) (ip : String) (start : ℕ) (arrivals : List Arrival) (s : Server)
    → IsLimiter ip s.api_limiter
    → AreIn start arrivals
    → tried lib ip arrivals s ≤ budget 119 start (lookup ip s.api_limiter.clients)
unfolding tried
tried-budget lib ip start [] s h i = omega arith
tried-budget lib ip start (a ∷ arrivals) s h (i, is) = omega (
  arith,
  budget-arrive lib ip start a s h i,
  tried-budget lib ip start arrivals (arrive lib a s) (arrive-IsLimiter lib ip a s h) is,
)

-- Whatever arrived at a new server before, of all that arrives within one minute at most 239
-- requests of an address get to the authentication: so many credentials it can try. Requests of
-- other addresses, closed connections and both cleanups may stand anywhere in between.
pub tried_at_most :
    (lib : Library) (available : Bool) (whitelist : List String) (auth : AuthConfig) (ip : String)
    (before arrivals : List Arrival) (start : ℕ)
    → AreIn start arrivals
    → tried lib ip arrivals (run lib before (new_server available whitelist auth)) ≤ 239
tried_at_most lib available whitelist auth ip before arrivals start i =
    let s = run lib before (new_server available whitelist auth) in
    let h : IsLimiter ip s.api_limiter =
      run-IsLimiter lib ip before (new_server available whitelist auth)
        (unfold new_server new_rate_limiter once lookup in (refl, refl, refl, tt)) in
    omega (
      arith,
      tried-budget lib ip start arrivals s h i,
      budget_few start (lookup ip s.api_limiter.clients) h.3,
    )
