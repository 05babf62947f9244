-- ===== src/Api/RateLimiter/Quota.antt =====
-- How many requests the limiter of internal/api/ratelimit.go lets through.
use elnssm.Common.{
  ℕ, suc, length, ◌+◌, ◌<◌, ℤ, pos, negsuc, String, List, [], ◌∷◌, Option, none, some, Bool, true,
  false, lookup, insert, lookup-insert, lookup-insert_self, ◌≡◌, refl, ap, ◌∙◌, arith, str_eq,
  if◌then◌else◌,
}
use Prim.Native.Nat.{min}
use elnssm.Api.RateLimiter.Defs.{Bucket, RateLimiter, is_over, allow_bucket, allow}

-- The requests of one address at the given times, in order: how many are let through.
unfoldable pub allowed : String → List ℕ → RateLimiter → ℕ
allowed ip [] rl = 0
allowed ip (now ∷ times) rl =
    let (rl', answer) = allow now ip rl in
    let rest = allowed ip times rl' in if answer then suc rest else rest

-- All times lie before the end of a window that began at `start`.
abbrev pub Within : ℕ → List ℕ → Type 0
Within end [] = Unit
Within end (t ∷ times) = (t < end) × Within end times

-- The tokens that an entry with a window open until `end` still gives.
abbrev tokens_left : ℤ → ℕ
tokens_left (pos n) = n
tokens_left (negsuc n) = 0

-- In an open window a request is let through for a token, or refused where none is left.
allow_bucket_open :
    (rate : ℤ) (window now : ℕ) (b : Bucket)
    → now < b.last_reset + window
    → let (b', answer) = allow_bucket rate window now (some b) in
      (b'.last_reset ≡ b.last_reset)
      × (tokens_left b.tokens ≡ (if answer then suc (tokens_left b'.tokens) else 0))
      × (answer ≡ false → tokens_left b'.tokens ≡ 0)
unfolding allow_bucket
allow_bucket_open rate window now b h = ground arith

one_more :
    (answer : Bool) (n left total : ℕ) {rest : ℕ}
    → rest ≡ min n left
    → total ≡ (if answer then suc left else 0)
    → (answer ≡ false → left ≡ 0)
    → (if answer then suc rest else rest) ≡ min (suc n) total
one_more true n left total a b c = omega arith
one_more false n left total a b c = omega (arith, c refl)

-- While the window of an address is open, exactly as many requests pass as it has tokens left, or
-- all of them if they are fewer.
allowed-open :
    (ip : String) (times : List ℕ) (rl : RateLimiter) (b : Bucket)
    → lookup ip rl.clients ≡ some b
    → Within (b.last_reset + rl.window) times
    → allowed ip times rl ≡ min (length times) (tokens_left b.tokens)
unfolding allowed allow
allowed-open ip [] rl b e w = omega arith
allowed-open ip (now ∷ times) rl b e w =
    let (b', answer) = allow_bucket rl.rate rl.window now (some b) in
    let (same, left, kept) = allow_bucket_open rl.rate rl.window now b w.0 in
    let rl' : RateLimiter = record rl { clients = insert ip b' rl.clients } in
    let rest = allowed-open ip times rl' b' (lookup-insert_self ip b' rl.clients) (rw same w.1) in
    rw e
      (one_more answer (length times) (tokens_left b'.tokens) (tokens_left b.tokens) rest left kept)

-- The address has no entry, or the window of its entry is over.
abbrev pub opens_window : ℕ → ℕ → Option Bucket → Bool
opens_window window now none = true
opens_window window now (some b) = is_over window now b

allow_bucket_opens :
    (r window now : ℕ) (o : Option Bucket)
    → opens_window window now o ≡ true
    → allow_bucket (pos (suc r)) window now o ≡ (record { tokens = pos r; last_reset = now }, true)
unfolding allow_bucket
allow_bucket_opens r window now none h = ground arith
allow_bucket_opens r window now (some b) h = ground arith

-- A request that opens a window for its address, because the address is new or its last window is
-- over: of it and the later requests before that window's end exactly `rate` pass, or all if they
-- are fewer. The rate is positive.
pub allowed_quota :
    (ip : String) (start r : ℕ) (times : List ℕ) (rl : RateLimiter)
    → rl.rate ≡ pos (suc r)
    → opens_window rl.window start (lookup ip rl.clients) ≡ true
    → Within (start + rl.window) times
    → allowed ip (start ∷ times) rl ≡ min (length (start ∷ times)) (suc r)
unfolding allowed allow
allowed_quota ip start r times rl e o w =
    let b : Bucket = record { tokens = pos r; last_reset = start } in
    let first : allow_bucket rl.rate rl.window start (lookup ip rl.clients) ≡ (b, true) =
      ap (λ k. allow_bucket k rl.window start (lookup ip rl.clients)) e
      ∙ allow_bucket_opens r rl.window start (lookup ip rl.clients) o in
    let rl' : RateLimiter = record rl { clients = insert ip b rl.clients } in
    let rest = allowed-open ip times rl' b (lookup-insert_self ip b rl.clients) w in
    rw first (omega (arith, rest))

-- The first request of a window passes even where the rate is 0; the later ones do not.
pub allowed_rate_zero :
    (ip : String) (start : ℕ) (times : List ℕ) (rl : RateLimiter)
    → rl.rate ≡ pos 0
    → opens_window rl.window start (lookup ip rl.clients) ≡ true
    → Within (start + rl.window) times
    → allowed ip (start ∷ times) rl ≡ 1
unfolding allowed allow
allowed_rate_zero ip start times rl e o w =
    let b : Bucket = record { tokens = negsuc 0; last_reset = start } in
    let first : allow_bucket rl.rate rl.window start (lookup ip rl.clients) ≡ (b, true) =
      unfold allow_bucket in ground (arith) in
    let rl' : RateLimiter = record rl { clients = insert ip b rl.clients } in
    let rest = allowed-open ip times rl' b (lookup-insert_self ip b rl.clients) w in
    rw first (omega (arith, rest))

-- Requests of one address do not touch the entries of the others.
pub lookup-allow_other :
    (now : ℕ) (ip other : String) (rl : RateLimiter)
    → str_eq ip other ≡ false
    → lookup other (allow now ip rl).0.clients ≡ lookup other rl.clients
unfolding allow
lookup-allow_other now ip other rl h =
    lookup-insert ip other (allow_bucket rl.rate rl.window now (lookup ip rl.clients)).0 rl.clients
    ∙ rw h
