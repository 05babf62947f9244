-- ===== src/Api/Sessions/Defs.antt =====
-- internal/sspi/session.go: the SessionStore and its methods. A time is a number of nanoseconds. A
-- session is a shared object in Go: what a caller writes to it is written back here by `put`.
-- DeleteSecurityContext is recorded in `deleted`.
use elnssm.Common.{
  ℕ, ◌+◌, String, List, [], ◌∷◌, Option, none, some, Bool, true, false, not, ◌&&◌, ltb, Dict,
  lookup, insert, erase, if◌then◌else◌,
}

-- Text that is only compared or decoded, as its bytes.
abbrev pub Bytes : Type 0
Bytes = List ℕ

pub data SessionState : Type 0 where
  fresh challenge complete : SessionState

pub record Session : Type 0 where
  pub ctx_handle : Option ℕ
  pub state : SessionState
  pub username : Bytes
  pub is_admin : Bool
  pub created_at : ℕ
  pub touched_at : ℕ

pub record SessionStore : Type 0 where
  pub sessions : Dict Session
  pub deleted : List ℕ

abbrev pub is_complete : SessionState → Bool
is_complete complete = true
is_complete _ = false

abbrev pub new_session : ℕ → Session
new_session now = record {
  ctx_handle = none;
  state = fresh;
  username = [];
  is_admin = false;
  created_at = now;
  touched_at = now;
}

unfoldable pub put : String → Session → SessionStore → SessionStore
put conn s ss = record ss { sessions = insert conn s ss.sessions }

unfoldable pub get_or_create : ℕ → String → SessionStore → SessionStore × Session
unfolding put
get_or_create now conn ss = elim (lookup conn ss.sessions) [
  | some s ↦ let s' = record s { touched_at = now } in (put conn s' ss, s')
  | none ↦ let s' = new_session now in (put conn s' ss, s')
]

unfoldable pub get : ℕ → String → SessionStore → SessionStore × Option Session
unfolding put
get now conn ss = elim (lookup conn ss.sessions) [
  | some s ↦ let s' = record s { touched_at = now } in (put conn s' ss, some s')
  | none ↦ (ss, none)
]

abbrev delete_context : Option ℕ → List ℕ → List ℕ
delete_context none deleted = deleted
delete_context (some ctx) deleted = ctx ∷ deleted

unfoldable pub remove : String → SessionStore → SessionStore
remove conn ss = elim (lookup conn ss.sessions) [
  | some s ↦ record {
    sessions = erase conn ss.sessions;
    deleted = delete_context s.ctx_handle ss.deleted;
  }
  | none ↦ ss
]

-- staleDuration, 60 s.
abbrev pub stale_duration : ℕ
stale_duration = 60_000_000_000

-- now.Sub(s.TouchedAt) > staleDuration, for a session that is not complete.
abbrev pub is_stale : ℕ → Session → Bool
is_stale now s = not (is_complete s.state) && ltb (s.touched_at + stale_duration) now

unfoldable pub keep_live : ℕ → Dict Session → Dict Session
keep_live now [] = []
keep_live now ((conn, s) ∷ m) =
    let rest = keep_live now m in if is_stale now s then rest else (conn, s) ∷ rest

unfoldable pub stale_contexts : ℕ → Dict Session → List ℕ → List ℕ
stale_contexts now [] deleted = deleted
stale_contexts now ((conn, s) ∷ m) deleted =
    stale_contexts now m (if is_stale now s then delete_context s.ctx_handle deleted else deleted)

unfoldable pub evict_stale : ℕ → SessionStore → SessionStore
unfolding keep_live stale_contexts
evict_stale now ss = record {
  sessions = keep_live now ss.sessions;
  deleted = stale_contexts now ss.sessions ss.deleted;
}

unfoldable pub all_contexts : Dict Session → List ℕ → List ℕ
all_contexts [] deleted = deleted
all_contexts ((conn, s) ∷ m) deleted = all_contexts m (delete_context s.ctx_handle deleted)

unfoldable pub close : SessionStore → SessionStore
unfolding all_contexts
close ss = record { sessions = []; deleted = all_contexts ss.sessions ss.deleted }

pub data Status : Type 0 where
  continue_needed ok unexpected : Status

-- What AcceptSecurityContext returns: the output token, the context and the status.
pub record Accepted : Type 0 where
  pub output : Bytes
  pub ctx : ℕ
  pub status : Status

-- secur32.dll and the token calls, none or false where they fail. `is_admin` is none where the
-- membership cannot be read.
pub record Sspi : Type 0 where
  pub accept : Option ℕ → Bytes → Option Accepted
  pub names : ℕ → Option Bytes
  pub token : ℕ → Bool
  pub is_admin : ℕ → Option Bool

abbrev admin_or_not : Option Bool → Bool
admin_or_not none = false
admin_or_not (some b) = b

-- The completed session, or none on an error.
unfoldable pub complete_session : Sspi → ℕ → Session → ℕ → Option Session
complete_session api now s ctx = elim (api.names ctx) [
  | none ↦ none
  | some username ↦
      if api.token ctx
      then some (record s {
        ctx_handle = some ctx;
        state = complete;
        username = username;
        is_admin = admin_or_not (api.is_admin ctx);
        touched_at = now;
      })
      else none
]
