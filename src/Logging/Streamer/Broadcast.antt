-- ===== src/Logging/Streamer/Broadcast.antt =====
-- What Broadcast makes of the list of the hub's clients.
use elnssm.Common.{
  true, false, ℕ, zero, suc, List, [], ◌∷◌, length, get_elem?, Option, none, some, count_if, Bool,
  ◌≡◌, refl, arith,
}
use elnssm.Logging.Streamer.Defs.{LogMessage, Client, ended, offer, push, broadcast, skips}

push-some :
    (o : Option Client) (os : Option (List Client)) (ds : List Client)
    → push o os ≡ some ds
    → (x : Client) × (xs : List Client) × (ds ≡ x ∷ xs) × (o ≡ some x) × (os ≡ some xs)
push-some none os ds e = absurd (ground (arith, e))
push-some (some x) none ds e = absurd (ground (arith, e))
push-some (some x) (some xs) ds e = (x, xs, ground (arith, e), refl, refl)

-- Every client after a broadcast is one before it that was offered the message.
pub broadcast-offer :
    (msg : LogMessage) (cs ds : List Client) (i : ℕ) (d : Client)
    → broadcast msg cs ≡ some ds
    → get_elem? ds i ≡ some d
    → (c : Client) × (get_elem? cs i ≡ some c) × (offer msg c ≡ some d)
unfolding broadcast
broadcast-offer msg [] ds i d e h = absurd (ground (arith, e, h))
broadcast-offer msg (c ∷ cs) ds zero d e h =
    let (x, xs, is, n, m) = push-some (offer msg c) (broadcast msg cs) ds e in
    (c, refl, ground (arith, is, n, h))
broadcast-offer msg (c ∷ cs) ds (suc i) d e h =
    let (x, xs, is, n, m) = push-some (offer msg c) (broadcast msg cs) ds e in
    broadcast-offer msg cs xs i d m (ground (arith, is, h))

-- Whether the writer goroutine, or Register before it, has yet to count the connection out.
abbrev pub is_live : Client → Bool
is_live c = elim c.writer [ ended ↦ false | _ ↦ true ]

offer-is_live : (msg : LogMessage) (c d : Client) → offer msg c ≡ some d → is_live d ≡ is_live c
unfolding offer skips
offer-is_live msg c d e = ground (arith, e)

-- A broadcast adds no client, and ends none.
pub broadcast-counts :
    (msg : LogMessage) (cs ds : List Client)
    → broadcast msg cs ≡ some ds
    → (length ds ≡ length cs) × (count_if is_live ds ≡ count_if is_live cs)
unfolding broadcast
broadcast-counts msg [] ds e = ground (arith, e)
broadcast-counts msg (c ∷ cs) ds e =
    let (x, xs, is, n, m) = push-some (offer msg c) (broadcast msg cs) ds e in
    ground (arith, is, offer-is_live msg c x n, broadcast-counts msg cs xs m)
