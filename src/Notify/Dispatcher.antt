-- ===== src/Notify/Dispatcher.antt =====
-- internal/notify/dispatcher.go: Dispatch. A time is a number of nanoseconds, the cooldown a signed
-- duration. An event counts by its key, the text "<service>:<type>". What a channel does with an
-- event changes nothing here: its error is only logged.
use elnssm.Common.{
  ℕ, ℤ, pos, ◌+ℤ◌, ltb_ℤ, String, Option, none, some, Bool, true, false, Dict, lookup, insert,
  if◌then◌else◌,
}

pub record Dispatcher : Type 0 where
  pub cooldowns : Dict ℕ
  pub cooldown_duration : ℤ

-- time.Since(lastSent) < d.cooldownDuration
abbrev pub is_cooling : ℕ → ℤ → Option ℕ → Bool
is_cooling now duration none = false
is_cooling now duration (some last) = ltb_ℤ (pos now) (pos last +ℤ duration)

-- Whether the event goes to the notifiers, which are done with it at time `finished`.
unfoldable pub dispatch : ℕ → ℕ → String → Dispatcher → Dispatcher × Bool
dispatch now finished key d =
    if is_cooling now d.cooldown_duration (lookup key d.cooldowns)
    then (d, false)
    else (record d { cooldowns = insert key finished d.cooldowns }, true)
