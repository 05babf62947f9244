-- ===== src/Logging/Streamer/Reached.antt =====
-- Every state that the goroutines of the hub can reach: its channels, its clients and its counter.
use elnssm.Common.{
  if◌then◌else◌, ◌++◌, ℕ, zero, suc, pos, List, [], ◌∷◌, length, length-append, length-set,
  get_elem?, some, count_if, count_if-append, count_if-set, true, false, ◌≡◌, refl, arith,
}
use elnssm.Logging.Streamer.Defs.{
  running, leaving, closing, ended, Client, new_client, selecting, registers, unregisters, Streamer,
  new_streamer, register, replace, unregister, Step, registered, accepted, entered, removed,
  broadcasts, wrote, drained, writer_left, writer_ended, reader_left, Reach, begin, next,
}
use elnssm.Logging.Streamer.Broadcast.{broadcast-counts, is_live}
use elnssm.Logging.Streamer.Channels.{AllSound, below, Step-AllSound}

-- The counter counts the connections whose writer goroutine has not ended.
pub record IsHub (s : Streamer) : Type 0 where
  pub sound : AllSound s.hub s.clients
  pub held : below s.hub (length s.clients) ≡ true
  pub counted : s.active_stream_conns ≡ pos (count_if is_live s.clients)

get_elem-lt :
    (cs : List Client) (i : ℕ) (c : Client)
    → get_elem? cs i ≡ some c
    → below (registers i) (length cs) ≡ true
get_elem-lt [] i c h = absurd (ground (arith, h))
get_elem-lt (x ∷ cs) zero c h = ground arith
get_elem-lt (x ∷ cs) (suc i) c h = ground (arith, get_elem-lt cs i c h)

unregister-is_live : (c d : Client) → unregister c ≡ some d → is_live d ≡ is_live c
unfolding unregister
unregister-is_live c d e = ground (arith, e)

-- The counter and the clients after a step.
Step-held :
    {s t : Streamer}
    → Step s t
    → below s.hub (length s.clients) ≡ true
    → below t.hub (length t.clients) ≡ true
unfolding replace register
Step-held {s} (registered service_id stream) h =
    elim s.hub
        as (λ k.
          below k (length s.clients) ≡ true
          → below k (length (s.clients ++ new_client service_id stream ∷ [])) ≡ true) [
            | selecting ↦ λ h. h
            | registers j ↦
                λ h. ground (arith, h, length-append s.clients (new_client service_id stream ∷ []))
            | unregisters j ↦
                λ h. ground (arith, h, length-append s.clients (new_client service_id stream ∷ []))
          ]
      h
Step-held {s} (accepted i c at idle w) h =
    rw (length-set s.clients i (record c { writer = running })) (get_elem-lt s.clients i c at)
Step-held {s} (entered i c at holds) h = refl
Step-held {s} (removed i c d at holds left) h = refl
Step-held {s} (broadcasts msg cs out sent) h = rw (broadcast-counts msg s.clients cs sent).0 h
Step-held {s} (wrote i c msg rest ok at w q) h =
    rw (length-set s.clients i (record c { send = rest; writer = if ok then running else leaving }))
      h
Step-held {s} (drained i c at w q closed) h =
    rw (length-set s.clients i (record c { writer = leaving })) h
Step-held {s} (writer_left i c at w idle) h =
    rw (length-set s.clients i (record c { writer = closing })) (get_elem-lt s.clients i c at)
Step-held {s} (writer_ended i c at w) h =
    rw (length-set s.clients i (record c { writer = ended })) h
Step-held {s} (reader_left i c at w r idle) h =
    rw (length-set s.clients i (record c { reading = false })) (get_elem-lt s.clients i c at)

Step-counted :
    {s t : Streamer}
    → Step s t
    → s.active_stream_conns ≡ pos (count_if is_live s.clients)
    → t.active_stream_conns ≡ pos (count_if is_live t.clients)
unfolding replace register
Step-counted {s} (registered service_id stream) h =
    ground (arith, h, count_if-append is_live s.clients (new_client service_id stream ∷ []))
Step-counted {s} (accepted i c at idle w) h =
    ground (arith, h, w, count_if-set is_live s.clients i (record c { writer = running }) c at)
Step-counted {s} (entered i c at holds) h =
    ground (arith, h, count_if-set is_live s.clients i (record c { member = true }) c at)
Step-counted {s} (removed i c d at holds left) h =
    ground (arith, h, unregister-is_live c d left, count_if-set is_live s.clients i d c at)
Step-counted {s} (broadcasts msg cs out sent) h =
    ground (arith, h, broadcast-counts msg s.clients cs sent)
Step-counted {s} (wrote i c msg rest ok at w q) h = ground (
  arith,
  h,
  w,
  count_if-set is_live s.clients i
      (record c { send = rest; writer = if ok then running else leaving }) c at,
)
Step-counted {s} (drained i c at w q closed) h =
    ground (arith, h, w, count_if-set is_live s.clients i (record c { writer = leaving }) c at)
Step-counted {s} (writer_left i c at w idle) h =
    ground (arith, h, w, count_if-set is_live s.clients i (record c { writer = closing }) c at)
Step-counted {s} (writer_ended i c at w) h =
    ground (arith, h, w, count_if-set is_live s.clients i (record c { writer = ended }) c at)
Step-counted {s} (reader_left i c at w r idle) h =
    ground (arith, h, w, count_if-set is_live s.clients i (record c { reading = false }) c at)

-- In every state that the goroutines reach, a client in the map has an open channel with at most 256
-- messages, a client whose connection is gone is in the map only while run takes it out, and the
-- counter counts the connections whose writer goroutine has not ended.
pub Reach-IsHub : {s : Streamer} → Reach s → IsHub s
unfolding new_streamer
Reach-IsHub begin = record {
  sound = λ i c h. absurd (ground (arith, h));
  held = refl;
  counted = refl;
}
Reach-IsHub (next r step) =
    let v = Reach-IsHub r in
    record {
      sound = Step-AllSound step v.held v.sound;
      held = Step-held step v.held;
      counted = Step-counted step v.counted;
    }
