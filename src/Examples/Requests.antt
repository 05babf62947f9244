-- ===== src/Examples/Requests.antt =====
-- The theorems about the API's middleware at work on concrete requests.
use elnssm.Common.{◌≡◌, List, [], ◌∷◌, ◌≤◌, some, true, false, lookup, refl, arith}
use elnssm.Api.RateLimiter.Defs.{allow_bucket}
use elnssm.Api.Server.{
  Server, Arrival, closed, cleanup_tick, new_rate_limiter, serve, new_server, run,
}
use elnssm.Api.Server.Handled.{IsGuarded, serve-IsGuarded}
use elnssm.Api.Server.Tried.{tried, tried_at_most, is_tried}
use elnssm.Api.Sessions.{Session, SessionStore, complete, challenge, ok}
use elnssm.Api.Auth.{AuthConfig, Request, Library}
use elnssm.Api.Auth.Access.{IsValid}

-- A handshake that began at time 10, and an administrator's session.
abbrev begun : Session
begun = record {
  ctx_handle = some 4;
  state = challenge;
  username = [];
  is_admin = false;
  created_at = 10;
  touched_at = 10;
}

abbrev admin : Session
admin = record {
  ctx_handle = some 5;
  state = complete;
  username = 65 ∷ [];
  is_admin = true;
  created_at = 10;
  touched_at = 10;
}

abbrev store : SessionStore
store = record { sessions = ("c1", begun) ∷ ("c2", admin) ∷ []; deleted = [] }

store-IsValid : IsValid store
unfolding lookup
store-IsValid conn s e c = ground (arith, e, c)

-- Each token is accepted, as that of the administrator A.
abbrev library : Library
library = record {
  bcrypt = λ h p. false;
  base64 = λ b. some b;
  sspi = record {
    accept = λ c b. some (record { output = []; ctx = 9; status = ok });
    names = λ c. some (65 ∷ []);
    token = λ c. true;
    is_admin = λ c. some true;
  };
}

abbrev sspi_config : AuthConfig
sspi_config = record {
  enabled = true;
  type = "sspi";
  token_hash = "";
  username = [];
  password_hash = "";
  allow_local_bypass = false;
}

-- "Negotiate " with a token, on the connection whose handshake has begun.
abbrev request : Request
request = record {
  client_ip = "10.0.0.1";
  conn_id = "c1";
  websocket = false;
  authorization = b'N' ∷ b'e' ∷ b'g' ∷ b'o' ∷ b't' ∷ b'i' ∷ b'a' ∷ b't' ∷ b'e' ∷ b' ' ∷ b'x' ∷ [];
  query_token = [];
}

-- A server that only this client's address may use, with both sessions.
abbrev server : Server
server = record {
  whitelist = "10.0.0.1" ∷ [];
  auth = sspi_config;
  api_limiter = new_rate_limiter 120 60000000000;
  sspi_store = some store;
}

serve-IsGuarded_example : IsGuarded library server request (serve library true 20 request server)
serve-IsGuarded_example = serve-IsGuarded library true 20 request server store-IsValid

-- A minute with two requests of the client and a cleanup, after an earlier request.
abbrev arrivals : List Arrival
arrivals =
    Arrival.request true 100 request
    ∷ cleanup_tick 200
    ∷ closed "c1"
    ∷ Arrival.request true 300 request
    ∷ []

tried_at_most_example :
    tried library "10.0.0.1" arrivals (
      run library
        (Arrival.request true 50 request ∷ [])
        (new_server true ("10.0.0.1" ∷ []) sspi_config))
    ≤ 239
tried_at_most_example =
    tried_at_most library true ("10.0.0.1" ∷ []) sspi_config "10.0.0.1"
      (Arrival.request true 50 request ∷ []) arrivals 90
      (
        (omega arith, omega arith),
        ((omega arith, omega arith), (tt, ((omega arith, omega arith), tt))),
      )

-- The first of the minute's requests is let through, and starts a handshake.
first_is_tried : is_tried (serve library true 20 request server).1 ≡ true
unfolding serve allow_bucket lookup new_rate_limiter
first_is_tried = refl
