-- ===== src/Logging/Capture.antt =====
-- internal/logging/capture.go: which file the lines of a service's output go to. filepath.Join and
-- what bufio.Scanner makes of a stream are parameters; a goroutine is its stream and its logger.
use elnssm.Common.{ℤ, pos, eqb_ℤ, String, str_eq, List, [], ◌∷◌, ◌++◌, Bool, if◌then◌else◌}
use Prim.Native.String as Text
use elnssm.Logging.Streamer.Defs.{LogMessage}

pub record CaptureConfig : Type 0 where
  pub stdout_file : String
  pub stderr_file : String
  pub combine_output : Bool
  pub max_size_mb : ℤ
  pub max_backups : ℤ
  pub compress : Bool

-- lumberjack.Logger
pub record Logger : Type 0 where
  pub filename : String
  pub max_size : ℤ
  pub max_backups : ℤ
  pub compress : Bool

-- `streams`: whether there is a streamer.
pub record Capture : Type 0 where
  pub service_id : String
  pub log_dir : String
  pub config : CaptureConfig
  pub writers : List Logger
  pub streams : Bool

unfoldable pub new_capture : String → String → CaptureConfig → Bool → Capture
new_capture service_id log_dir cfg streams = record {
  service_id = service_id;
  log_dir = log_dir;
  config = cfg;
  writers = [];
  streams = streams;
}

abbrev pub or_name : String → String → String
or_name file default = if str_eq file "" then default else file

module _ (join : String → String → String) where
  abbrev pub logger : Capture → String → Logger
  logger c file = record {
    filename = join c.log_dir file;
    max_size = if eqb_ℤ c.config.max_size_mb (pos 0) then pos 50 else c.config.max_size_mb;
    max_backups = c.config.max_backups;
    compress = c.config.compress;
  }

  -- Start, with the captureStream goroutines that it starts. `made`: os.MkdirAll returns no error.
  unfoldable pub start : Bool → Capture → Capture × List (String × Logger)
  start made c =
      let out = logger c (or_name c.config.stdout_file "stdout.log") in
      let err = logger c (or_name c.config.stderr_file "stderr.log") in
      if made
      then (if c.config.combine_output
          then (
            record c { writers = c.writers ++ out ∷ [] },
            ("stdout", out) ∷ ("stderr", out) ∷ [],
          )
          else (
            record c { writers = (c.writers ++ out ∷ []) ++ err ∷ [] },
            ("stdout", out) ∷ ("stderr", err) ∷ [],
          ))
      else (c, [])

  unfoldable pub get_log_path : Capture → String → String
  get_log_path c stream =
      if str_eq stream "stderr"
      then join c.log_dir (or_name c.config.stderr_file "stderr.log")
      else join c.log_dir (or_name c.config.stdout_file "stdout.log")

-- What captureStream does: a write to a file, whose error is only logged, and a broadcast.
pub data Effect : Type 0 where
  writes : String → String → Effect
  broadcasts : LogMessage → Effect

-- The loop over the lines that the scanner finds.
unfoldable pub capture_stream : Capture → String → Logger → List String → List Effect
capture_stream c stream l [] = []
capture_stream c stream l (line ∷ lines) =
    let rest = capture_stream c stream l lines in
    let msg : LogMessage = record { service_id = c.service_id; stream = stream; line = line } in
    let file = writes l.filename (Text.◌++◌ line "\n") in
    if c.streams then file ∷ broadcasts msg ∷ rest else file ∷ rest

-- Close
unfoldable pub close : Capture → Capture
close c = record c { writers = [] }
