-- ===== src/Api/Sessions/Eviction.antt =====
-- Which sessions evictStale (internal/sspi/session.go) removes.
use elnssm.Common.{
  ℕ, ◌+◌, ◌≤◌, ◌<◌, ◌⊎◌, ◌≢◌, String, [], ◌∷◌, Option, none, some, Dict, lookup, ◌≡◌, refl, arith,
  if◌then◌else◌,
}
use text.Mathlib.TextEquality.{eq_iff}
use elnssm.Api.Sessions.Defs.{
  Session, SessionStore, complete, stale_duration, is_stale, keep_live, evict_stale,
}

-- No connection stands twice in the map.
abbrev pub HasKeyOnce : Dict Session → Type 0
HasKeyOnce [] = Unit
HasKeyOnce ((conn, s) ∷ m) = (lookup conn m ≡ none) × HasKeyOnce m

abbrev unless_stale : ℕ → Option Session → Option Session
unless_stale now none = none
unless_stale now (some s) = if is_stale now s then none else some s

lookup-keep_live-none :
    (now : ℕ) (conn : String) (m : Dict Session)
    → lookup conn m ≡ none
    → lookup conn (keep_live now m) ≡ none
unfolding keep_live lookup
lookup-keep_live-none now conn [] h = refl
lookup-keep_live-none now conn ((c, s) ∷ m) h = ground (arith, lookup-keep_live-none now conn m)

lookup-keep_live :
    (now : ℕ) (conn : String) (m : Dict Session)
    → HasKeyOnce m
    → lookup conn (keep_live now m) ≡ unless_stale now (lookup conn m)
unfolding keep_live lookup
lookup-keep_live now conn [] k = refl
lookup-keep_live now conn ((c, s) ∷ m) k =
    ground (arith, eq_iff c conn, lookup-keep_live now conn m k.1, lookup-keep_live-none now conn m)

-- An eviction keeps each complete session, and each other one that was touched within the stale
-- duration; it removes the rest. (Each connection stands once in the map.)
pub evict_stale_exact :
    (now : ℕ) (conn : String) (ss : SessionStore) (s : Session)
    → HasKeyOnce ss.sessions
    → lookup conn ss.sessions ≡ some s
    → (lookup conn (evict_stale now ss).sessions ≡ some s)
        × ((s.state ≡ complete) ⊎ (now ≤ s.touched_at + stale_duration))
      ⊎ (lookup conn (evict_stale now ss).sessions ≡ none)
        × (s.state ≢ complete)
        × (s.touched_at + stale_duration < now)
unfolding evict_stale
evict_stale_exact now conn ss s k e = ground (arith, lookup-keep_live now conn ss.sessions k)
