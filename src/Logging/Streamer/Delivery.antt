-- ===== src/Logging/Streamer/Delivery.antt =====
-- Which clients a line of output reaches, and that the hub never panics.
use elnssm.Common.{
  ◌⊎◌, ℕ, suc, List, [], ◌∷◌, ◌++◌, length, get_elem?, set, get_elem-set, get_elem-snoc, some, Bool,
  true, false, ◌&&◌, ◌||◌, ltb, ◌==◌, String, str_eq, str_eq_iff, ◌≡◌, refl, sym, subst, inl, inr,
  Bool-cases, arith, if◌then◌else◌,
}
use elnssm.Logging.Streamer.Defs.{
  LogMessage, running, leaving, closing, ended, Client, new_client, Hub, Streamer, send_size,
  new_streamer, register, replace, unregister, skips, offer, broadcast, is_output, Step, registered,
  accepted, entered, removed, broadcasts, wrote, drained, writer_left, writer_ended, reader_left,
  Reach, begin, next,
}
use elnssm.Logging.Streamer.Channels.{IsSound}
use elnssm.Logging.Streamer.Broadcast.{broadcast-offer}
use elnssm.Logging.Streamer.Reached.{Reach-IsHub}

-- A client in the map, of this service, for this stream or both, with room in its channel.
abbrev pub receives : LogMessage → Client → Bool
receives msg c =
    c.member
    && (str_eq c.service_id msg.service_id
        && ((str_eq c.stream "combined" || str_eq c.stream msg.stream)
            && ltb (length c.send) send_size))

abbrev pub delivered : LogMessage → Client → Client
delivered msg c = if receives msg c then record c { send = c.send ++ msg ∷ [] } else c

offer_sound :
    (msg : LogMessage) (hub : Hub) (i : ℕ) (c : Client)
    → IsSound hub i c
    → offer msg c ≡ some (delivered msg c)
unfolding offer skips
offer_sound msg hub i c v = ground (arith, v)

-- The list of the clients after the message.
abbrev pub deliver_all : LogMessage → List Client → List Client
deliver_all msg [] = []
deliver_all msg (c ∷ cs) = delivered msg c ∷ deliver_all msg cs

broadcast-open :
    (msg : LogMessage) (cs : List Client)
    → ((i : ℕ) (c : Client) → get_elem? cs i ≡ some c → offer msg c ≡ some (delivered msg c))
    → broadcast msg cs ≡ some (deliver_all msg cs)
unfolding broadcast
broadcast-open msg [] h = refl
broadcast-open msg (c ∷ cs) h = rw (h 0 c refl, broadcast-open msg cs λ i d e. h (suc i) d e) refl

-- In every reachable state a broadcast sends on no closed channel: it puts the message at the end of
-- the channel of just those clients in the map that watch this service and this stream, or both
-- streams, and have room, and changes nothing else.
pub Reach-delivers :
    {s : Streamer} (msg : LogMessage)
    → Reach s
    → broadcast msg s.clients ≡ some (deliver_all msg s.clients)
Reach-delivers {s} msg r =
    let v = Reach-IsHub r in
    broadcast-open msg s.clients λ i c e. offer_sound msg s.hub i c (v.sound i c e)

-- In every reachable state run can take the client that it has received out of the map: it closes the
-- channel of a client in the map, and no channel twice.
pub Reach-unregister :
    {s : Streamer} (i : ℕ) (c : Client)
    → Reach s
    → get_elem? s.clients i ≡ some c
    → unregister c ≡ some (record c { member = false; closed = c.member || c.closed })
unfolding unregister
Reach-unregister {s} i c r e = let v = (Reach-IsHub r).sound i c e in ground (arith, v)

-- An event viewer has been sent nothing.
abbrev IsSilent : Client → Type 0
IsSilent c = (str_eq c.stream "events" ≡ false) ⊎ (c.send ≡ [])

abbrev AllSilent : List Client → Type 0
AllSilent cs = (i : ℕ) (c : Client) → get_elem? cs i ≡ some c → IsSilent c

set-AllSilent :
    (cs : List Client) (i : ℕ) (c d : Client)
    → get_elem? cs i ≡ some c
    → IsSilent d
    → AllSilent cs
    → AllSilent (set cs i d)
set-AllSilent cs i c d at silent all j e h = elim (Bool-cases (i == j)) [
  | inl same ↦
      let is : d ≡ e = ground (arith, same, h, get_elem-set cs i j d c at) in
      subst (λ x. IsSilent x) is silent
  | inr other ↦ all j e (ground (arith, other, h, get_elem-set cs i j d c at))
]

snoc-AllSilent :
    (cs : List Client) (d : Client) → IsSilent d → AllSilent cs → AllSilent (cs ++ d ∷ [])
snoc-AllSilent cs d silent all j e h = elim (Bool-cases (length cs == j)) [
  | inl same ↦
      let is : d ≡ e = ground (arith, same, h, get_elem-snoc cs d j) in
      subst (λ x. IsSilent x) is silent
  | inr other ↦ all j e (ground (arith, other, h, get_elem-snoc cs d j))
]

outputs : (t : String) → is_output t ≡ true → (t ≡ "stdout") ⊎ (t ≡ "stderr")
outputs t h = ground (arith, h, str_eq_iff t "stdout", str_eq_iff t "stderr")

mismatch :
    (s t : String)
    → s ≡ "events"
    → (t ≡ "stdout") ⊎ (t ≡ "stderr")
    → (str_eq s "combined" ≡ false) × (str_eq s t ≡ false)
mismatch s t e (inl f) = rw (e, f) (refl, refl)
mismatch s t e (inr f) = rw (e, f) (refl, refl)

offer_to_others :
    (msg : LogMessage) (c d : Client)
    → str_eq c.stream "combined" ≡ false
    → str_eq c.stream msg.stream ≡ false
    → offer msg c ≡ some d
    → c ≡ d
unfolding offer skips
offer_to_others msg c d p q e = ground (arith, p, q, e)

offer_stream : (msg : LogMessage) (c d : Client) → offer msg c ≡ some d → d.stream ≡ c.stream
unfolding offer skips
offer_stream msg c d e = ground (arith, e)

offer-IsSilent :
    (msg : LogMessage) (c d : Client)
    → is_output msg.stream ≡ true
    → offer msg c ≡ some d
    → IsSilent c
    → IsSilent d
offer-IsSilent msg c d out e v = elim (Bool-cases (str_eq c.stream "events")) [
  | inl events ↦
      let (p, q) =
        mismatch c.stream msg.stream ((str_eq_iff c.stream "events").0 events)
          (outputs msg.stream out) in
      subst (λ x. IsSilent x) (offer_to_others msg c d p q e) v
  | inr other ↦ inl (subst (λ x. str_eq x "events" ≡ false) (sym (offer_stream msg c d e)) other)
]

unregister-IsSilent : (c d : Client) → unregister c ≡ some d → IsSilent c → IsSilent d
unfolding unregister
unregister-IsSilent c d e v = ground (arith, e, v)

Step-AllSilent : {s t : Streamer} → Step s t → AllSilent s.clients → AllSilent t.clients
unfolding replace register
Step-AllSilent {s} (registered service_id stream) v =
    snoc-AllSilent s.clients (new_client service_id stream) (inr refl) v
Step-AllSilent {s} (accepted i c at idle w) v =
    set-AllSilent s.clients i c (record c { writer = running }) at (v i c at) v
Step-AllSilent {s} (entered i c at holds) v =
    set-AllSilent s.clients i c (record c { member = true }) at (v i c at) v
Step-AllSilent {s} (removed i c d at holds left) v =
    set-AllSilent s.clients i c d at (unregister-IsSilent c d left (v i c at)) v
Step-AllSilent {s} (broadcasts msg cs out sent) v = λ i d h.
    let (c, at, offered) = broadcast-offer msg s.clients cs i d sent h in
    offer-IsSilent msg c d out offered (v i c at)
Step-AllSilent {s} (wrote i c msg rest ok at w q) v =
    set-AllSilent s.clients i c (record c { send = rest; writer = if ok then running else leaving })
      at (ground (arith, v i c at, q)) v
Step-AllSilent {s} (drained i c at w q closed) v =
    set-AllSilent s.clients i c (record c { writer = leaving }) at (v i c at) v
Step-AllSilent {s} (writer_left i c at w idle) v =
    set-AllSilent s.clients i c (record c { writer = closing }) at (v i c at) v
Step-AllSilent {s} (writer_ended i c at w) v =
    set-AllSilent s.clients i c (record c { writer = ended }) at (v i c at) v
Step-AllSilent {s} (reader_left i c at w r idle) v =
    set-AllSilent s.clients i c (record c { reading = false }) at (v i c at) v

Reach-AllSilent : {s : Streamer} → Reach s → AllSilent s.clients
unfolding new_streamer
Reach-AllSilent begin = λ i c h. absurd (ground (arith, h))
Reach-AllSilent (next r step) = Step-AllSilent step (Reach-AllSilent r)

-- A client that watches the stream "events", as each client of the event stream's handler does, never
-- has a message to write, whatever the services print.
pub Reach-events_silent :
    {s : Streamer} (i : ℕ) (c : Client)
    → Reach s
    → get_elem? s.clients i ≡ some c
    → c.stream ≡ "events"
    → c.send ≡ []
Reach-events_silent i c r at e =
    ground (arith, Reach-AllSilent r i c at, str_eq_iff c.stream "events", e)
