-- ===== src/Api/Auth/Defs.antt =====
-- internal/api/auth.go and internal/api/middleware.go: the middleware in front of the handlers. A
-- response that calls the next handler carries the user it passes on.
use elnssm.Common.{
  String, str_eq, List, [], ◌∷◌, Option, none, some, Bool, true, false, any, ◌&&◌, ◌||◌, ◌==◌,
  if◌then◌else◌,
}
use elnssm.Api.Sessions.{Bytes, Sspi}

pub record AuthConfig : Type 0 where
  pub enabled : Bool
  pub type : String
  pub token_hash : String
  pub username : Bytes
  pub password_hash : String
  pub allow_local_bypass : Bool

-- `authorization` is that header's value, empty where it is missing. `websocket` is the outcome of
-- isWebSocketUpgrade, and `client_ip` that of extractIP.
pub record Request : Type 0 where
  pub client_ip : String
  pub conn_id : String
  pub websocket : Bool
  pub authorization : Bytes
  pub query_token : Bytes

-- bcrypt.CompareHashAndPassword, base64 decoding and the calls of Windows.
pub record Library : Type 0 where
  pub bcrypt : String → Bytes → Bool
  pub base64 : Bytes → Option Bytes
  pub sspi : Sspi

pub data User : Type 0 where
  anonymous local_admin token_user : User
  named : Bytes → User

pub data Response : Type 0 where
  next : User → Response
  unauthorized forbidden : Response

unfoldable pub is_loopback : String → Bool
is_loopback ip = str_eq ip "127.0.0.1" || str_eq ip "::1"

-- ipWhitelist: whether the request reaches the next handler.
unfoldable pub ip_whitelist : List String → String → Bool
ip_whitelist [] ip = false
ip_whitelist (a ∷ rest) ip = str_eq ip a || any (λ b. str_eq ip b) rest

-- extractIP: `split` is net.SplitHostPort's host, `normalize` what net.ParseIP and To4 make of it.
unfoldable pub extract_ip : (String → Option String) → (String → Option String) → String → String
extract_ip split normalize addr = elim (split addr) [
  | none ↦ addr
  | some host ↦ elim (normalize host) [ none ↦ host | some ip ↦ ip ]
]

-- strings.HasPrefix with strings.TrimPrefix.
unfoldable pub strip_prefix : Bytes → Bytes → Option Bytes
strip_prefix [] text = some text
strip_prefix (p ∷ ps) [] = none
strip_prefix (p ∷ ps) (c ∷ cs) = let rest = strip_prefix ps cs in if p == c then rest else none

abbrev pub bearer_prefix : Bytes
bearer_prefix = b'B' ∷ b'e' ∷ b'a' ∷ b'r' ∷ b'e' ∷ b'r' ∷ b' ' ∷ []

abbrev pub basic_prefix : Bytes
basic_prefix = b'B' ∷ b'a' ∷ b's' ∷ b'i' ∷ b'c' ∷ b' ' ∷ []

abbrev pub negotiate_prefix : Bytes
negotiate_prefix = b'N' ∷ b'e' ∷ b'g' ∷ b'o' ∷ b't' ∷ b'i' ∷ b'a' ∷ b't' ∷ b'e' ∷ b' ' ∷ []

-- strings.SplitN(payload, ":", 2) where it has two parts.
unfoldable pub split_colon : Bytes → Option (Bytes × Bytes)
split_colon [] = none
split_colon (c ∷ cs) =
    let rest : Option (Bytes × Bytes) = elim (split_colon cs) [
      | none ↦ none
      | some (a, b) ↦ some (c ∷ a, b)
    ] in
    if c == b':' then some ([], cs) else rest

unfoldable pub same_bytes : Bytes → Bytes → Bool
same_bytes [] [] = true
same_bytes (a ∷ xs) (b ∷ ys) = a == b && same_bytes xs ys
same_bytes _ _ = false

abbrev pub is_empty : Bytes → Bool
is_empty [] = true
is_empty (_ ∷ _) = false
