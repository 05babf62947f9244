-- ===== src/Logging/Streamer/Defs.antt =====
-- internal/logging/streamer.go: Client, Streamer, run, AtConnLimit, Register, Broadcast and the two
-- goroutines of a client. A client is known by its number in the order of the Register calls; that
-- it stands in the map s.clients is its field `member`. A send on a closed channel and a second
-- close are a panic, `none`. Broadcast and the body of each case of run hold the lock, so each is one
-- step; all other steps may come in between, also between a receive of run and its body.
use elnssm.Common.{
  ℕ, ℤ, pos, negsuc, ◌+ℤ◌, leb_ℤ, ltb, String, str_eq, List, [], ◌∷◌, ◌++◌, length, get_elem?, set,
  Option, none, some, Bool, true, false, not, ◌&&◌, ◌||◌, ◌≡◌, if◌then◌else◌,
}

pub record LogMessage : Type 0 where
  pub service_id : String
  pub stream : String
  pub line : String

-- The call of Register up to its send on s.register, then the writer goroutine: in its loop, in its
-- deferred function before and after the send on s.unregister, and ended.
pub data Writer : Type 0 where
  registering running leaving closing ended : Writer

pub record Client : Type 0 where
  pub service_id : String
  pub stream : String
  pub send : List LogMessage
  pub closed : Bool
  pub member : Bool
  pub writer : Writer
  pub reading : Bool  -- whether the reader goroutine has not sent on s.unregister

-- The goroutine of run: in its select, or holding a client that it received.
pub data Hub : Type 0 where
  selecting : Hub
  registers unregisters : ℕ → Hub

pub record Streamer : Type 0 where
  pub clients : List Client
  pub hub : Hub
  pub active_stream_conns : ℤ

abbrev pub max_stream_conns : ℕ
max_stream_conns = 50

abbrev pub send_size : ℕ
send_size = 256

unfoldable pub new_streamer : Streamer
new_streamer = record { clients = []; hub = selecting; active_stream_conns = pos 0 }

unfoldable pub at_conn_limit : Streamer → Bool
at_conn_limit s = leb_ℤ (pos max_stream_conns) s.active_stream_conns

abbrev pub new_client : String → String → Client
new_client service_id stream = record {
  service_id = service_id;
  stream = stream;
  send = [];
  closed = false;
  member = false;
  writer = registering;
  reading = true;
}

-- Register: the counter, the client, and the wait for the hub.
unfoldable pub register : String → String → Streamer → Streamer
register service_id stream s = record s {
  clients = s.clients ++ new_client service_id stream ∷ [];
  active_stream_conns = s.active_stream_conns +ℤ pos 1;
}

unfoldable pub replace : ℕ → Client → Streamer → Streamer
replace i c s = record s { clients = set s.clients i c }

-- The body of case client := <-s.unregister.
unfoldable pub unregister : Client → Option Client
unregister c =
    if c.member
    then (if c.closed then none else some (record c { member = false; closed = true }))
    else some c

-- Whether Broadcast passes the client by.
unfoldable pub skips : LogMessage → Client → Bool
skips msg c =
    not c.member
    || (not (str_eq c.service_id msg.service_id)
        || (not (str_eq c.stream "combined") && not (str_eq c.stream msg.stream)))

-- One round of the loop of Broadcast.
unfoldable pub offer : LogMessage → Client → Option Client
offer msg c =
    if skips msg c
    then some c
    else if c.closed
    then none
    else if ltb (length c.send) send_size
    then some (record c { send = c.send ++ msg ∷ [] })
    else some c

abbrev pub push : Option Client → Option (List Client) → Option (List Client)
push none others = none
push (some c) none = none
push (some c) (some cs) = some (c ∷ cs)

-- In one step: broadcasts that overlap, as the read lock lets them, are taken one after the other.
unfoldable pub broadcast : LogMessage → List Client → Option (List Client)
broadcast msg [] = some []
broadcast msg (c ∷ cs) = push (offer msg c) (broadcast msg cs)

abbrev pub is_registering : Writer → Bool
is_registering registering = true
is_registering _ = false

-- captureStream, the caller of Broadcast, names one of two streams.
abbrev pub is_output : String → Bool
is_output stream = str_eq stream "stdout" || str_eq stream "stderr"

-- One step of any goroutine. A panic is no step.
pub data Step : Streamer → Streamer → Type 0 where
  registered : {s : Streamer} (service_id stream : String) → Step s (register service_id stream s)
  accepted :
      {s : Streamer} (i : ℕ) (c : Client)
      → get_elem? s.clients i ≡ some c
      → s.hub ≡ selecting
      → c.writer ≡ registering
      → Step s (replace i (record c { writer = running }) (record s { hub = registers i }))
  entered :
      {s : Streamer} (i : ℕ) (c : Client)
      → get_elem? s.clients i ≡ some c
      → s.hub ≡ registers i
      → Step s (replace i (record c { member = true }) (record s { hub = selecting }))
  removed :
      {s : Streamer} (i : ℕ) (c d : Client)
      → get_elem? s.clients i ≡ some c
      → s.hub ≡ unregisters i
      → unregister c ≡ some d
      → Step s (replace i d (record s { hub = selecting }))
  broadcasts :
      {s : Streamer} (msg : LogMessage) (cs : List Client)
      → is_output msg.stream ≡ true
      → broadcast msg s.clients ≡ some cs
      → Step s (record s { clients = cs })
  -- the writer takes a message, and conn.WriteJSON returns no error or one
  wrote :
      {s : Streamer} (i : ℕ) (c : Client) (msg : LogMessage) (rest : List LogMessage) (ok : Bool)
      → get_elem? s.clients i ≡ some c
      → c.writer ≡ running
      → c.send ≡ msg ∷ rest
      → Step s (replace i (record c { send = rest; writer = if ok then running else leaving }) s)
  -- the range over a closed channel ends
  drained :
      {s : Streamer} (i : ℕ) (c : Client)
      → get_elem? s.clients i ≡ some c
      → c.writer ≡ running
      → c.send ≡ []
      → c.closed ≡ true
      → Step s (replace i (record c { writer = leaving }) s)
  writer_left :
      {s : Streamer} (i : ℕ) (c : Client)
      → get_elem? s.clients i ≡ some c
      → c.writer ≡ leaving
      → s.hub ≡ selecting
      → Step s (replace i (record c { writer = closing }) (record s { hub = unregisters i }))
  writer_ended :
      {s : Streamer} (i : ℕ) (c : Client)
      → get_elem? s.clients i ≡ some c
      → c.writer ≡ closing
      → Step s (
          replace i
            (record c { writer = ended })
            (record s { active_stream_conns = s.active_stream_conns +ℤ negsuc 0 }))
  -- conn.ReadMessage fails
  reader_left :
      {s : Streamer} (i : ℕ) (c : Client)
      → get_elem? s.clients i ≡ some c
      → is_registering c.writer ≡ false
      → c.reading ≡ true
      → s.hub ≡ selecting
      → Step s (replace i (record c { reading = false }) (record s { hub = unregisters i }))

pub data Reach : Streamer → Type 0 where
  begin : Reach new_streamer
  next : {s t : Streamer} → Reach s → Step s t → Reach t
