-- ===== src/Api/Logs.antt =====
-- internal/api/handlers_logs.go: the log handlers. The file system, filepath.Join and strconv.Atoi are
-- parameters; upgrader.Upgrade is the answer whether it succeeded.
pub mod Tail
use elnssm.Common.{
  ℕ, ℤ, pos, negsuc, ltb, leb_ℤ, ltb_ℤ, String, str_eq, List, [], ◌∷◌, ◌++◌, length, drop, Option,
  none, some, Bool, true, false, not, ◌||◌, if◌then◌else◌,
}
use Prim.Native.String as Text
use elnssm.Logging.Streamer.Defs.{Streamer, at_conn_limit, register}
use elnssm.Api.Services.Validation.{validate_service_id, validate_log_stream}

abbrev pub or_stream : String → String → String
or_stream given default = if str_eq given "" then default else given

-- What stands under a path: no file, a file that cannot be read to its end, or the scanner's lines.
pub data LogFile : Type 0 where
  absent unreadable : LogFile
  lines : List String → LogFile

-- The reply and its code; a download names the file that is served.
pub data LogReply : Type 0 where
  invalid_service_id invalid_stream log_not_found log_read_error conn_limit : LogReply
  content : String → LogReply
  file : String → LogReply
  upgraded not_upgraded : LogReply

-- The loop of tailFile over the scanner's lines.
unfoldable pub tail_lines : ℕ → List String → List String → List String
tail_lines n kept [] = kept
tail_lines n kept (line ∷ rest) =
    let grown = kept ++ line ∷ [] in
    tail_lines n (if ltb n (length grown) then drop 1 grown else grown) rest

-- result += line + "\n"
unfoldable pub joined : List String → String
joined [] = ""
joined (line ∷ rest) = Text.◌++◌ line (Text.◌++◌ "\n" (joined rest))

abbrev pub tail_file : LogFile → ℕ → Option String
tail_file absent n = none
tail_file unreadable n = none
tail_file (lines l) n = some (joined (tail_lines n [] l))

abbrev pub is_absent : LogFile → Bool
is_absent absent = true
is_absent _ = false

abbrev pub positive : Option ℤ → ℕ
positive (some (pos n)) = if ltb 0 n then n else 100
positive _ = 100

abbrev pub line_count : (String → Option ℤ) → String → ℕ
line_count atoi text = if str_eq text "" then 100 else positive (atoi text)

abbrev pub replied : Option String → LogReply
replied none = log_read_error
replied (some text) = content text

module _ (join : String → String → String) (data_dir : String) where
  -- config.ServiceLogDir
  abbrev pub service_log_dir : String → String
  service_log_dir id = join (join data_dir "logs") id

  abbrev pub log_file : String → String → String
  log_file id stream = join (service_log_dir id) (Text.◌++◌ stream ".log")

  -- handleGetLogs: the service ID, the queries "stream" and "lines"
  unfoldable pub handle_get_logs :
      (String → Option ℤ) → (String → LogFile) → String → String → String → LogReply
  handle_get_logs atoi files id stream count =
      let name = or_stream stream "stdout" in
      let found = files (log_file id name) in
      if not (validate_service_id id)
      then invalid_service_id
      else if not (validate_log_stream name)
      then invalid_stream
      else if is_absent found
      then log_not_found
      else replied (tail_file found (line_count atoi count))

  -- handleDownloadLog
  unfoldable pub handle_download_log : (String → LogFile) → String → String → LogReply
  handle_download_log files id stream =
      let name = or_stream stream "stdout" in
      if not (validate_service_id id)
      then invalid_service_id
      else if not (validate_log_stream name)
      then invalid_stream
      else if is_absent (files (log_file id name))
      then log_not_found
      else file (log_file id name)

-- The check of the limit, which handleStreamLogs and handleStreamEvents share, and Register.
abbrev connect : Bool → String → String → Streamer → Streamer × LogReply
connect upgrades id stream s =
    if at_conn_limit s
    then (s, conn_limit)
    else if upgrades
    then (register id stream s, upgraded)
    else (s, not_upgraded)

-- handleStreamLogs
unfoldable pub handle_stream_logs : Bool → String → String → Streamer → Streamer × LogReply
handle_stream_logs upgrades id stream s =
    let name = or_stream stream "combined" in
    if not (validate_service_id id)
    then (s, invalid_service_id)
    else if not (validate_log_stream name)
    then (s, invalid_stream)
    else connect upgrades id name s

-- handleStreamEvents
unfoldable pub handle_stream_events : Bool → Streamer → Streamer × LogReply
handle_stream_events upgrades s = connect upgrades "*" "events" s
