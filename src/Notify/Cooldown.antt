-- ===== src/Notify/Cooldown.antt =====
-- How often events of one key go out (internal/notify/dispatcher.go).
use elnssm.Common.{
  ℕ, ℤ, pos, ◌+ℤ◌, ◌≤ℤ◌, String, List, [], ◌∷◌, Option, none, some, true, false, lookup, insert,
  lookup-insert, str_eq, str_eq_iff, ◌≡◌, inl, inr, Bool-cases, subst, arith, if◌then◌else◌,
}
use elnssm.Notify.Dispatcher.{Dispatcher, is_cooling, dispatch}

-- The arrival of an event: when, when its dispatch is done, and its key.
pub record Arrival : Type 0 where
  pub now : ℕ
  pub finished : ℕ
  pub key : String

-- The arrivals with this key that go out, of all arrivals in their order.
unfoldable pub sent : String → List Arrival → Dispatcher → List Arrival
sent key [] d = []
sent key (a ∷ arrivals) d =
    let (d', goes) = dispatch a.now a.finished a.key d in
    let rest = sent key arrivals d' in
    if goes then (if str_eq a.key key then a ∷ rest else rest) else rest

-- Each arrival comes at least the duration after the one before it, or after `last`, was done.
abbrev pub IsSpaced : ℤ → Option ℕ → List Arrival → Type 0
IsSpaced duration last [] = Unit
IsSpaced duration none (a ∷ arrivals) = IsSpaced duration (some a.finished) arrivals
IsSpaced duration (some last) (a ∷ arrivals) =
    (pos last +ℤ duration ≤ℤ pos a.now) × IsSpaced duration (some a.finished) arrivals

goes_out :
    (duration : ℤ) (last : Option ℕ) (a : Arrival) (arrivals : List Arrival)
    → is_cooling a.now duration last ≡ false
    → IsSpaced duration (some a.finished) arrivals
    → IsSpaced duration last (a ∷ arrivals)
goes_out duration none a arrivals c h = h
goes_out duration (some last) a arrivals c h = (ground (arith, c), h)

-- The dispatcher after an arrival that goes out, and the time that it then has for a key.
abbrev marked : Arrival → Dispatcher → Dispatcher
marked a d = record d { cooldowns = insert a.key a.finished d.cooldowns }

lookup-marked_self :
    (a : Arrival) (key : String) (d : Dispatcher)
    → str_eq a.key key ≡ true
    → lookup key (marked a d).cooldowns ≡ some a.finished
lookup-marked_self a key d k = ground (arith, k, lookup-insert a.key key a.finished d.cooldowns)

lookup-marked_other :
    (a : Arrival) (key : String) (d : Dispatcher)
    → str_eq a.key key ≡ false
    → lookup key (marked a d).cooldowns ≡ lookup key d.cooldowns
lookup-marked_other a key d k = ground (arith, k, lookup-insert a.key key a.finished d.cooldowns)

-- Whatever events arrive in between, two events of one key that go out one after the other lie at
-- least the cooldown apart, and the first comes so long after the time that is stored for its key.
pub sent-IsSpaced :
    (key : String) (arrivals : List Arrival) (d : Dispatcher)
    → IsSpaced d.cooldown_duration (lookup key d.cooldowns) (sent key arrivals d)
unfolding sent dispatch
sent-IsSpaced key [] d = tt
sent-IsSpaced key (a ∷ arrivals) d =
    elim (Bool-cases (is_cooling a.now d.cooldown_duration (lookup a.key d.cooldowns))) [
      | inl c ↦ rw c (sent-IsSpaced key arrivals d)
      | inr c ↦ elim (Bool-cases (str_eq a.key key)) [
        | inl k ↦ rw c (
            rw k (
              goes_out d.cooldown_duration (lookup key d.cooldowns) a _
                (subst (λ x. is_cooling a.now d.cooldown_duration (lookup x d.cooldowns) ≡ false)
                  ((str_eq_iff a.key key).0 k) c)
                (subst (λ l. IsSpaced d.cooldown_duration l (sent key arrivals (marked a d)))
                  (lookup-marked_self a key d k) (sent-IsSpaced key arrivals (marked a d)))))
        | inr k ↦ rw c (
            rw k (
              subst (λ l. IsSpaced d.cooldown_duration l (sent key arrivals (marked a d)))
                (lookup-marked_other a key d k) (sent-IsSpaced key arrivals (marked a d))))
      ]
    ]
