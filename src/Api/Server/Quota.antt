-- ===== src/Api/Server/Quota.antt =====
-- How often the API's handlers run for one address while others are served too and the limiter's
-- cleanup runs.
use elnssm.Common.{
  sym, subst, ℕ, suc, ◌+◌, ◌*◌, ◌≤◌, ◌<◌, ℤ, pos, negsuc, String, [], ◌∷◌, Option, none, some, Bool,
  true, Dict, lookup, insert, lookup-insert, not, is_some, leb, ◌≡◌, refl, sym, subst, arith,
  str_eq, str_eq_iff, if◌then◌else◌,
}
use elnssm.Api.Auth.Credentials.{if_then_else}
use elnssm.Api.RateLimiter.Defs.{
  Bucket, RateLimiter, is_over, allow_bucket, allow, drop_old, cleanup,
}

-- The limiter holds one entry at most for the address.
unfoldable pub once : String → Dict Bucket → Bool
once ip [] = true
once ip ((name, b) ∷ m) =
    let rest = once ip m in if str_eq name ip then not (is_some (lookup ip m)) else rest

once-insert :
    (ip key : String) (b : Bucket) (m : Dict Bucket)
    → once ip m ≡ true
    → once ip (insert key b m) ≡ true
unfolding once lookup insert
once-insert ip key b [] h = ground arith
once-insert ip key b ((name, old) ∷ m) h = ground (
  arith,
  once-insert ip key b m,
  lookup-insert key ip b m,
  str_eq_iff key ip,
  str_eq_iff name key,
  str_eq_iff name ip,
)

abbrev kept_bucket : ℕ → ℕ → Option Bucket → Option Bucket
kept_bucket window now none = none
kept_bucket window now (some b) = if is_over (window * 2) now b then none else some b

drop_old_unknown :
    (ip : String) (window now : ℕ) (m : Dict Bucket)
    → lookup ip m ≡ none
    → lookup ip (drop_old window now m) ≡ none
unfolding lookup drop_old
drop_old_unknown ip window now [] h = refl
drop_old_unknown ip window now ((name, b) ∷ m) h =
    let rest = drop_old_unknown ip window now m in ground (arith, rest)

pub lookup-drop_old :
    (ip : String) (window now : ℕ) (m : Dict Bucket)
    → once ip m ≡ true
    → lookup ip (drop_old window now m) ≡ kept_bucket window now (lookup ip m)
unfolding lookup drop_old once
lookup-drop_old ip window now [] h = refl
lookup-drop_old ip window now ((name, b) ∷ m) h =
    ground (arith, lookup-drop_old ip window now m, drop_old_unknown ip window now m)

once_unknown : (ip : String) (m : Dict Bucket) → lookup ip m ≡ none → once ip m ≡ true
unfolding lookup once
once_unknown ip [] h = refl
once_unknown ip ((name, b) ∷ m) h = let rest = once_unknown ip m in ground (arith, rest)

once-drop_old :
    (ip : String) (window now : ℕ) (m : Dict Bucket)
    → once ip m ≡ true
    → once ip (drop_old window now m) ≡ true
unfolding lookup drop_old once
once-drop_old ip window now [] h = refl
once-drop_old ip window now ((name, b) ∷ m) h = ground (
  arith,
  once-drop_old ip window now m,
  drop_old_unknown ip window now m,
  once_unknown ip (drop_old window now m),
)

-- The requests that the address still has in the span of one window from `start` on: the tokens of
-- its entry, and a whole quota of `suc r` where the entry's window may end within the span.
abbrev tokens_left : ℤ → ℕ
tokens_left (pos n) = n
tokens_left (negsuc n) = 0

unfoldable pub budget : ℕ → ℕ → Option Bucket → ℕ
budget r start none = suc r
budget r start (some b) =
    if leb start b.last_reset then tokens_left b.tokens else suc (r + tokens_left b.tokens)

-- One request costs one of them, if it is let through.
pub budget-allow_bucket :
    (r start now window : ℕ) (o : Option Bucket)
    → start ≤ now
    → now < start + window
    → let (b, answer) = allow_bucket (pos (suc r)) window now o in
      (if answer then 1 else 0) + budget r start (some b) ≤ budget r start o
unfolding allow_bucket budget
budget-allow_bucket r start now window none a w = ground arith
budget-allow_bucket r start now window (some b) a w = ground arith

pub budget-kept_bucket :
    (r start now window : ℕ) (o : Option Bucket)
    → now < start + window
    → budget r start (kept_bucket window now o) ≤ budget r start o
unfolding budget
budget-kept_bucket r start now window none w = omega arith
budget-kept_bucket r start now window (some b) w = ground arith

-- The limiter of a server that NewServer made, after whatever arrived: its settings, and no entry
-- with more tokens than the quota leaves after one request.
abbrev HasFewTokens : Option Bucket → Type 0
HasFewTokens none = Unit
HasFewTokens (some b) = tokens_left b.tokens ≤ 119

abbrev pub IsLimiter : String → RateLimiter → Type 0
IsLimiter ip rl =
    (rl.rate ≡ pos 120)
    × (rl.window ≡ 60000000000)
    × (once ip rl.clients ≡ true)
    × HasFewTokens (lookup ip rl.clients)

pub budget_few : (start : ℕ) (o : Option Bucket) → HasFewTokens o → budget 119 start o ≤ 239
unfolding budget
budget_few start none h = omega arith
budget_few start (some b) h = ground arith

allow_bucket-HasFewTokens :
    (window now : ℕ) (o : Option Bucket)
    → HasFewTokens o
    → HasFewTokens (some (allow_bucket (pos 120) window now o).0)
unfolding allow_bucket
allow_bucket-HasFewTokens window now none h = ground arith
allow_bucket-HasFewTokens window now (some b) h = ground arith

kept_bucket-HasFewTokens :
    (window now : ℕ) (o : Option Bucket) → HasFewTokens o → HasFewTokens (kept_bucket window now o)
kept_bucket-HasFewTokens window now none h = tt
kept_bucket-HasFewTokens window now (some b) h = ground arith

pub allow-IsLimiter :
    (ip other : String) (now : ℕ) (rl : RateLimiter)
    → IsLimiter ip rl
    → IsLimiter ip (allow now other rl).0
unfolding allow
allow-IsLimiter ip other now rl (e, w, k, h) =
    let (b, answer) = allow_bucket rl.rate rl.window now (lookup other rl.clients) in
    let mine : other ≡ ip → HasFewTokens (some b) =
      λ o. rw (e, o) (allow_bucket-HasFewTokens rl.window now (lookup ip rl.clients) h) in
    (
      e,
      w,
      once-insert ip other b rl.clients k,
      subst HasFewTokens (sym (lookup-insert other ip b rl.clients)) (
          if_then_else HasFewTokens (str_eq other ip) (λ t. mine ((str_eq_iff other ip).0 t))
            (λ _. h)),
    )

pub cleanup-IsLimiter :
    (ip : String) (now : ℕ) (rl : RateLimiter) → IsLimiter ip rl → IsLimiter ip (cleanup now rl)
unfolding cleanup
cleanup-IsLimiter ip now rl (e, w, k, h) = (
  e,
  w,
  once-drop_old ip rl.window now rl.clients k,
  subst HasFewTokens (sym (lookup-drop_old ip rl.window now rl.clients k))
      (kept_bucket-HasFewTokens rl.window now (lookup ip rl.clients) h),
)
