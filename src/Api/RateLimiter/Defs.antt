-- ===== src/Api/RateLimiter/Defs.antt =====
-- internal/api/ratelimit.go: Allow and the removal of old entries. A time is a number of nanoseconds
-- and the window a positive duration, so `now - lastReset >= window` is written as a sum.
use elnssm.Common.{
  ℕ, ◌+◌, ◌*◌, ℤ, pos, negsuc, ltb_ℤ, ◌+ℤ◌, String, [], ◌∷◌, Option, none, some, Bool, true, false,
  leb, Dict, lookup, insert, if◌then◌else◌,
}

pub record Bucket : Type 0 where
  pub tokens : ℤ
  pub last_reset : ℕ

pub record RateLimiter : Type 0 where
  pub clients : Dict Bucket
  pub rate : ℤ
  pub window : ℕ

abbrev pub is_over : ℕ → ℕ → Bucket → Bool
is_over duration now b = leb (b.last_reset + duration) now

-- The entry that Allow leaves, and its answer, for the entry that it finds.
unfoldable pub allow_bucket : ℤ → ℕ → ℕ → Option Bucket → Bucket × Bool
allow_bucket rate window now none = (record { tokens = rate +ℤ negsuc 0; last_reset = now }, true)
allow_bucket rate window now (some b) =
    if is_over window now b
    then (record { tokens = rate +ℤ negsuc 0; last_reset = now }, true)
    else if ltb_ℤ (pos 0) b.tokens
    then (record b { tokens = b.tokens +ℤ negsuc 0 }, true)
    else (b, false)

unfoldable pub allow : ℕ → String → RateLimiter → RateLimiter × Bool
allow now ip rl =
    let (b, answer) = allow_bucket rl.rate rl.window now (lookup ip rl.clients) in
    (record rl { clients = insert ip b rl.clients }, answer)

-- One run of the cleanup loop.
unfoldable pub drop_old : ℕ → ℕ → Dict Bucket → Dict Bucket
drop_old window now [] = []
drop_old window now ((ip, b) ∷ m) =
    let rest = drop_old window now m in if is_over (window * 2) now b then rest else (ip, b) ∷ rest

unfoldable pub cleanup : ℕ → RateLimiter → RateLimiter
unfolding drop_old
cleanup now rl = record rl { clients = drop_old rl.window now rl.clients }
