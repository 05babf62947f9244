-- ===== src/Examples/Streams.antt =====
-- A viewer that joins the hub, an event viewer, and the log files that the API reads.
use elnssm.Common.{
  str_eq_refl, arith, inl, inr, inr, sym, ◌∙◌, str_eq_iff, inl, Bool-cases, ℤ, pos, String, str_eq,
  [], ◌∷◌, map, Option, some, true, false, ◌≡◌, refl, ap,
}
use Prim.Native.String as Text
use Prim.Native.Char.{Char}
use elnssm.Logging.Streamer.Defs.{
  LogMessage, Client, running, Streamer, selecting, new_streamer, register, replace, new_client,
  broadcast, registered, accepted, entered, Reach, begin, next,
}
use elnssm.Logging.Streamer.Reached.{IsHub, Reach-IsHub}
use elnssm.Logging.Streamer.Delivery.{deliver_all, Reach-delivers, Reach-events_silent}
use elnssm.Logging.Capture.{Capture, start}
use elnssm.Logging.Files.{is_plain, is_served, start-is_served, FilePaths, IsFilePaths}
use elnssm.Api.Logs.{LogFile, lines, service_log_dir}
use elnssm.Api.Services.Validation.{any_char}

abbrev viewer : Client
viewer = record (new_client "web" "combined") { writer = running; member = true }

abbrev watched : Streamer
watched = record { clients = viewer ∷ []; hub = selecting; active_stream_conns = pos 1 }

watched-Reach : Reach watched
unfolding new_streamer register replace
watched-Reach =
    next
      (next (next begin (registered "web" "combined"))
        (accepted 0 (new_client "web" "combined") refl refl refl))
      (entered 0 (record (new_client "web" "combined") { writer = running }) refl refl)

Reach-IsHub_example : IsHub watched
Reach-IsHub_example = Reach-IsHub watched-Reach

abbrev hello : LogMessage
hello = record { service_id = "web"; stream = "stdout"; line = "hello" }

Reach-delivers_example : broadcast hello watched.clients ≡ some (deliver_all hello watched.clients)
Reach-delivers_example = Reach-delivers hello watched-Reach

abbrev event_viewer : Client
event_viewer = new_client "*" "events"

abbrev with_events : Streamer
with_events = record { clients = event_viewer ∷ []; hub = selecting; active_stream_conns = pos 1 }

with_events-Reach : Reach with_events
unfolding new_streamer register
with_events-Reach = next begin (registered "*" "events")

Reach-events_silent_example : event_viewer.send ≡ []
Reach-events_silent_example = Reach-events_silent 0 event_viewer with_events-Reach refl refl

abbrev slash : Char
slash = "/"

abbrev joined : String → String → String
joined d f = Text.◌∷◌ slash f

abbrev atoi : String → Option ℤ
atoi s = some (pos (Text.len s))

abbrev files : String → LogFile
files path = lines ("one" ∷ "two" ∷ "three" ∷ [])

abbrev capture : Capture
capture = record {
  service_id = "web";
  log_dir = service_log_dir joined "data" "web";
  config = record {
    stdout_file = "app.log";
    stderr_file = "";
    combine_output = false;
    max_size_mb = pos 0;
    max_backups = pos 3;
    compress = true;
  };
  writers = [];
  streams = true;
}

joined_same :
    (d f g : String)
    → is_plain f ≡ true
    → is_plain g ≡ true
    → str_eq (joined d f) (joined d g) ≡ str_eq f g
joined_same d f g p q = elim (Bool-cases (str_eq f g)) [
  | inl e ↦ (str_eq_iff (joined d f) (joined d g)).1 (ap (joined d) ((str_eq_iff f g).0 e)) ∙ sym e
  | inr e ↦ elim (Bool-cases (str_eq (joined d f) (joined d g))) [
    | inl h ↦
        let same : f ≡ g = cc ((str_eq_iff (joined d f) (joined d g)).0 h) in
        absurd (ground (arith, (str_eq_iff f g).1 same, e))
    | inr h ↦ h ∙ sym e
  ]
]

abbrev file_paths : FilePaths
file_paths = record { join = joined; is_same = str_eq }

file_paths-IsFilePaths : IsFilePaths file_paths
file_paths-IsFilePaths = record { same_file = joined_same; same_refl = str_eq_refl }

app_plain : is_plain "app.log" ≡ true
unfolding any_char
app_plain = refl

err_plain : is_plain "stderr.log" ≡ true
unfolding any_char
err_plain = refl

start-is_served_example :
    map (is_served file_paths "data" "web") (start joined true capture).1 ≡ false ∷ true ∷ []
start-is_served_example =
    start-is_served file_paths "data" capture file_paths-IsFilePaths refl app_plain err_plain
