-- ===== src/Api/Auth/Access.antt =====
-- Who the middleware of internal/api/auth.go lets through.
use elnssm.Common.{
  ℕ, String, Option, none, some, Bool, true, false, lookup, insert, lookup-insert, lookup-erase,
  lookup-insert_self, sym, subst, ◌≡◌, refl, arith,
}
use elnssm.Api.Sessions.{
  Bytes, Session, SessionStore, challenge, complete, Status, continue_needed, ok, unexpected, get,
  get_or_create, put, remove, complete_session,
}
use elnssm.Api.Auth.Defs.{Library, named, Response, next, unauthorized, forbidden}
use elnssm.Api.Auth.Middleware.{finish, after_accept, negotiate_token}

-- A session that is authenticated is an administrator's.
abbrev pub IsAdminSession : Session → Type 0
IsAdminSession s = s.state ≡ complete → s.is_admin ≡ true

-- Every authenticated session of the store is an administrator's.
abbrev pub IsValid : SessionStore → Type 0
IsValid ss = (conn : String) (s : Session) → lookup conn ss.sessions ≡ some s → IsAdminSession s

put-IsValid :
    (conn : String) (s : Session) (ss : SessionStore)
    → IsValid ss
    → IsAdminSession s
    → IsValid (put conn s ss)
unfolding put
put-IsValid conn s ss v a conn' s' e =
    ground (arith, lookup-insert conn conn' s ss.sessions, v conn' s')

remove-IsValid : (conn : String) (ss : SessionStore) → IsValid ss → IsValid (remove conn ss)
unfolding remove
remove-IsValid conn ss v conn' s' e =
    ground (arith, lookup-erase conn conn' ss.sessions, v conn' s')

-- Reading a session touches it, or makes a fresh one where there is none.
get_or_create-IsAdmin :
    (now : ℕ) (conn : String) (ss : SessionStore) (found : Option Session)
    → found ≡ lookup conn ss.sessions
    → IsValid ss
    → IsAdminSession (get_or_create now conn ss).1
unfolding get_or_create
get_or_create-IsAdmin now conn ss none e v = ground arith
get_or_create-IsAdmin now conn ss (some s) e v = ground (arith, v conn s)

get_or_create-put :
    (now : ℕ) (conn : String) (ss : SessionStore)
    → (get_or_create now conn ss).0 ≡ put conn (get_or_create now conn ss).1 ss
unfolding get_or_create
get_or_create-put now conn ss = ground arith

get_or_create-IsValid :
    (now : ℕ) (conn : String) (ss : SessionStore)
    → IsValid ss
    → IsValid (get_or_create now conn ss).0
get_or_create-IsValid now conn ss v = subst IsValid (sym (get_or_create-put now conn ss)) (
    put-IsValid conn (get_or_create now conn ss).1 ss v
      (get_or_create-IsAdmin now conn ss (lookup conn ss.sessions) refl v))

pub get-none :
    (now : ℕ) (conn : String) (ss : SessionStore)
    → lookup conn ss.sessions ≡ none
    → get now conn ss ≡ (ss, none)
unfolding get
get-none now conn ss e = ground arith

pub get-some :
    (now : ℕ) (conn : String) (ss : SessionStore) (s : Session)
    → lookup conn ss.sessions ≡ some s
    → get now conn ss
      ≡ (put conn (record s { touched_at = now }) ss, some (record s { touched_at = now }))
unfolding get
get-some now conn ss s e = ground arith

pub get-IsValid :
    (now : ℕ) (conn : String) (ss : SessionStore) (found : Option Session)
    → lookup conn ss.sessions ≡ found
    → IsValid ss
    → IsValid (get now conn ss).0
get-IsValid now conn ss none e v = subst (λ x. IsValid x.0) (sym (get-none now conn ss e)) v
get-IsValid now conn ss (some s) e v =
    subst (λ x. IsValid x.0) (sym (get-some now conn ss s e))
      (put-IsValid conn (record s { touched_at = now }) ss v (v conn s e))

pub put-lookup :
    (conn : String) (s : Session) (ss : SessionStore)
    → lookup conn (put conn s ss).sessions ≡ some s
unfolding put
put-lookup conn s ss = lookup-insert_self conn s ss.sessions

remove-put-IsValid :
    (conn : String) (s : Session) (ss : SessionStore)
    → IsValid ss
    → IsValid (remove conn (put conn s ss))
unfolding remove put
remove-put-IsValid conn s ss v conn' s' e = ground (
  arith,
  lookup-erase conn conn' (insert conn s ss.sessions),
  lookup-insert conn conn' s ss.sessions,
  lookup-insert_self conn s ss.sessions,
  v conn' s',
)

-- The connection has an authenticated session of an administrator with this name.
abbrev pub HasAdminSession : String → SessionStore → Bytes → Type 0
HasAdminSession conn ss username =
    (s : Session) × (lookup conn ss.sessions ≡ some s)
    × (s.state ≡ complete)
    × (s.is_admin ≡ true)
    × (s.username ≡ username)

-- What a negotiation lets through.
abbrev pub IsNegotiated : String → SessionStore → Response → Type 0
IsNegotiated conn ss (next (named username)) = HasAdminSession conn ss username
IsNegotiated conn ss (next _) = ⊥
IsNegotiated conn ss unauthorized = Unit
IsNegotiated conn ss forbidden = Unit

-- A run leaves a valid store and lets through only the user of a session that it holds.
abbrev pub IsGood : String → SessionStore × Response → Type 0
IsGood conn out = IsValid out.0 × IsNegotiated conn out.0 out.1

finish_admin :
    (conn : String) (s : Session) (ss : SessionStore)
    → s.is_admin ≡ true
    → finish conn (some s) ss ≡ (put conn s ss, next (named s.username))
unfolding finish
finish_admin conn s ss e = ground arith

finish_other :
    (conn : String) (s : Session) (ss : SessionStore)
    → s.is_admin ≡ false
    → finish conn (some s) ss ≡ (remove conn (put conn s ss), forbidden)
unfolding finish
finish_other conn s ss e = ground arith

finish-IsGood :
    (conn : String) (s : Session) (ss : SessionStore) (b : Bool)
    → s.is_admin ≡ b
    → s.state ≡ complete
    → IsValid ss
    → IsGood conn (finish conn (some s) ss)
finish-IsGood conn s ss true e c v =
    subst (IsGood conn) (sym (finish_admin conn s ss e))
      (put-IsValid conn s ss v (λ _. e), (s, put-lookup conn s ss, c, e, refl))
finish-IsGood conn s ss false e c v =
    subst (IsGood conn) (sym (finish_other conn s ss e)) (remove-put-IsValid conn s ss v, tt)

complete_session-complete :
    (lib : Library) (now : ℕ) (s s' : Session) (ctx : ℕ)
    → complete_session lib.sspi now s ctx ≡ some s'
    → s'.state ≡ complete
unfolding complete_session
complete_session-complete lib now s s' ctx e = ground arith

finish-complete_session :
    (lib : Library) (now : ℕ) (conn : String) (s : Session) (ctx : ℕ) (ss : SessionStore)
    (completed : Option Session)
    → complete_session lib.sspi now s ctx ≡ completed
    → IsValid ss
    → IsGood conn (finish conn completed ss)
unfolding finish
finish-complete_session lib now conn s ctx ss none e v = (remove-IsValid conn ss v, tt)
finish-complete_session lib now conn s ctx ss (some s') e v =
    finish-IsGood conn s' ss s'.is_admin refl (complete_session-complete lib now s s' ctx e) v

after_accept-IsGood :
    (lib : Library) (now : ℕ) (conn : String) (s : Session) (a : Option (ℕ × Status))
    (ss : SessionStore)
    → IsValid ss
    → IsGood conn (after_accept lib now conn s a ss)
unfolding after_accept
after_accept-IsGood lib now conn s none ss v = (remove-IsValid conn ss v, tt)
after_accept-IsGood lib now conn s (some (c, continue_needed)) ss v =
    (put-IsValid conn (record s { ctx_handle = some c; state = challenge }) ss v (ground arith), tt)
after_accept-IsGood lib now conn s (some (c, ok)) ss v =
    finish-complete_session lib now conn s c ss (complete_session lib.sspi now s c) refl v
after_accept-IsGood lib now conn s (some (c, unexpected)) ss v = (remove-IsValid conn ss v, tt)

pub negotiate_token-IsGood :
    (lib : Library) (now : ℕ) (conn : String) (token : Option Bytes) (ss : SessionStore)
    → IsValid ss
    → IsGood conn (negotiate_token lib now conn token ss)
unfolding negotiate_token
negotiate_token-IsGood lib now conn none ss v = (remove-IsValid conn ss v, tt)
negotiate_token-IsGood lib now conn (some token) ss v =
    after_accept-IsGood lib now conn (get_or_create now conn ss).1 _ _
      (get_or_create-IsValid now conn ss v)
