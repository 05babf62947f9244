-- ===== src/Logging/Streamer/Channels.antt =====
-- The clients' channels in every state of the hub: when one is open, and how much it holds.
use elnssm.Common.{
  ℕ, ◌≤◌, ltb, ◌==◌, List, [], ◌∷◌, length, length-append, get_elem?, String, set, get_elem-set,
  get_elem-snoc, ◌⊎◌, some, Bool, true, false, not, ◌&&◌, ◌||◌, ◌≡◌, subst, inl, inr, Bool-cases,
  arith, if◌then◌else◌,
}
use elnssm.Logging.Streamer.Broadcast.{broadcast-offer}
use elnssm.Logging.Streamer.Defs.{
  LogMessage, running, leaving, closing, ended, Client, Hub, selecting, registers, unregisters,
  Streamer, new_client, send_size, register, replace, unregister, skips, offer, is_registering,
  Step, registered, accepted, entered, removed, broadcasts, wrote, drained, writer_left,
  writer_ended, reader_left,
}

abbrev pub enters : Hub → ℕ → Bool
enters (registers j) i = j == i
enters _ i = false

abbrev pub removes : Hub → ℕ → Bool
removes (unregisters j) i = j == i
removes _ i = false

-- Whether one of its goroutines has told the hub that the connection is gone.
abbrev pub is_gone : Client → Bool
is_gone c = not c.reading || elim c.writer [ closing ↦ true | ended ↦ true | _ ↦ false ]

-- The channel of a client in the map is open, and never holds more than its size; a client whose
-- connection is gone stands in the map only while the hub takes it out.
pub record IsSound (hub : Hub) (i : ℕ) (c : Client) : Type 0 where
  pub open_member : c.member && c.closed ≡ false
  pub bounded : length c.send ≤ send_size
  pub fresh : is_registering c.writer && (c.member || (c.closed || is_gone c)) ≡ false
  pub entering :
      enters hub i && (is_registering c.writer || (c.member || (c.closed || is_gone c))) ≡ false
  pub gone : (is_gone c && c.member) && not (removes hub i) ≡ false

-- The client that the hub holds is one of n.
abbrev pub below : Hub → ℕ → Bool
below selecting n = true
below (registers j) n = ltb j n
below (unregisters j) n = ltb j n

abbrev pub AllSound : Hub → List Client → Type 0
AllSound hub cs = (i : ℕ) (c : Client) → get_elem? cs i ≡ some c → IsSound hub i c

-- A step that changes one client, and leaves the others sound.
replace-AllSound :
    (s : Streamer) (hub : Hub) (i : ℕ) (c d : Client)
    → get_elem? s.clients i ≡ some c
    → IsSound hub i d
    → ((j : ℕ) (e : Client) → (i == j) ≡ false → get_elem? s.clients j ≡ some e → IsSound hub j e)
    → AllSound hub (set s.clients i d)
replace-AllSound s hub i c d at sound others j e h = elim (Bool-cases (i == j)) [
  | inl same ↦
      let is : d ≡ e = ground (arith, same, h, get_elem-set s.clients i j d c at) in
      let eq : i ≡ j = ground (arith, same) in
      subst (λ k. IsSound hub k e) eq (subst (λ x. IsSound hub i x) is sound)
  | inr other ↦ others j e other (ground (arith, other, h, get_elem-set s.clients i j d c at))
]

-- While the hub selects, and whichever other client it then takes, a client stays sound.
idle-IsSound :
    (i j : ℕ) (c : Client)
    → (i == j) ≡ false
    → IsSound selecting j c
    → IsSound (registers i) j c × IsSound (unregisters i) j c
idle-IsSound i j c other v = ground (arith, v, other)

done-IsSound :
    (i j : ℕ) (c : Client)
    → (i == j) ≡ false
    → IsSound (registers i) j c ⊎ IsSound (unregisters i) j c
    → IsSound selecting j c
done-IsSound i j c other v = ground (arith, v, other)

unregister-IsSound :
    (i : ℕ) (c d : Client)
    → unregister c ≡ some d
    → IsSound (unregisters i) i c
    → IsSound selecting i d
unfolding unregister
unregister-IsSound i c d e v = ground (arith, e, v)

offer-IsSound :
    (msg : LogMessage) (hub : Hub) (i : ℕ) (c d : Client)
    → offer msg c ≡ some d
    → IsSound hub i c
    → IsSound hub i d
unfolding offer skips
offer-IsSound msg hub i c d e v = ground (arith, e, v, length-append c.send (msg ∷ []))

new-IsSound :
    (service_id stream : String) (hub : Hub) (i n : ℕ)
    → below hub n ≡ true
    → (n == i) ≡ true
    → IsSound hub i (new_client service_id stream)
new-IsSound service_id stream selecting i n held e = ground (arith, held, e)
new-IsSound service_id stream (registers j) i n held e = ground (arith, held, e)
new-IsSound service_id stream (unregisters j) i n held e = ground (arith, held, e)

register-AllSound :
    (service_id stream : String) (s : Streamer)
    → below s.hub (length s.clients) ≡ true
    → AllSound s.hub s.clients
    → AllSound s.hub (register service_id stream s).clients
unfolding register
register-AllSound service_id stream s held v i c h = elim (Bool-cases (length s.clients == i)) [
  | inl e ↦
      let is : new_client service_id stream ≡ c =
        ground (arith, e, h, get_elem-snoc s.clients (new_client service_id stream) i) in
      subst (λ x. IsSound s.hub i x) is
        (new-IsSound service_id stream s.hub i (length s.clients) held e)
  | inr e ↦ v i c (ground (arith, e, h, get_elem-snoc s.clients (new_client service_id stream) i))
]

pub Step-AllSound :
    {s t : Streamer}
    → Step s t
    → below s.hub (length s.clients) ≡ true
    → AllSound s.hub s.clients
    → AllSound t.hub t.clients
unfolding replace register
Step-AllSound {s} (registered service_id stream) held v =
    register-AllSound service_id stream s held v
Step-AllSound {s} (accepted i c at idle w) held v =
    let u : AllSound selecting s.clients = subst (λ h. AllSound h s.clients) idle v in
    replace-AllSound s (registers i) i c (record c { writer = running }) at
      (ground (arith, u i c at, w)) λ j e other f. (idle-IsSound i j e other (u j e f)).0
Step-AllSound {s} (entered i c at holds) held v =
    let u : AllSound (registers i) s.clients = subst (λ h. AllSound h s.clients) holds v in
    replace-AllSound s selecting i c (record c { member = true }) at (ground (arith, u i c at))
      λ j e other f. done-IsSound i j e other (inl (u j e f))
Step-AllSound {s} (removed i c d at holds left) held v =
    let u : AllSound (unregisters i) s.clients = subst (λ h. AllSound h s.clients) holds v in
    replace-AllSound s selecting i c d at (unregister-IsSound i c d left (u i c at))
      λ j e other f. done-IsSound i j e other (inr (u j e f))
Step-AllSound {s} (broadcasts msg cs out sent) held v = λ i d h.
    let (c, at, offered) = broadcast-offer msg s.clients cs i d sent h in
    offer-IsSound msg s.hub i c d offered (v i c at)
Step-AllSound {s} (wrote i c msg rest ok at w q) held v =
    replace-AllSound s s.hub i c
      (record c { send = rest; writer = if ok then running else leaving }) at
      (ground (arith, v i c at, w, q)) λ j e other f. v j e f
Step-AllSound {s} (drained i c at w q closed) held v =
    replace-AllSound s s.hub i c (record c { writer = leaving }) at (ground (arith, v i c at, w))
      λ j e other f. v j e f
Step-AllSound {s} (writer_left i c at w idle) held v =
    let u : AllSound selecting s.clients = subst (λ h. AllSound h s.clients) idle v in
    replace-AllSound s (unregisters i) i c (record c { writer = closing }) at
      (ground (arith, u i c at, w)) λ j e other f. (idle-IsSound i j e other (u j e f)).1
Step-AllSound {s} (writer_ended i c at w) held v =
    replace-AllSound s s.hub i c (record c { writer = ended }) at (ground (arith, v i c at, w))
      λ j e other f. v j e f
Step-AllSound {s} (reader_left i c at w r idle) held v =
    let u : AllSound selecting s.clients = subst (λ h. AllSound h s.clients) idle v in
    replace-AllSound s (unregisters i) i c (record c { reading = false }) at
      (ground (arith, u i c at, w)) λ j e other f. (idle-IsSound i j e other (u j e f)).1
