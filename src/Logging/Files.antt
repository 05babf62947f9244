-- ===== src/Logging/Files.antt =====
-- Which captured streams the log handlers of the API can serve (internal/logging/capture.go and
-- internal/api/handlers_logs.go).
use elnssm.Common.{
  refl, inr, inl, Bool-cases, sym, ◌&&◌, not, subst, String, str_eq, [], ◌∷◌, map, Bool, true, ◌||◌,
  ◌≡◌, arith, if◌then◌else◌,
}
use elnssm.Logging.Capture.{Capture, Logger, or_name, start}
use elnssm.Api.Logs.{log_file, service_log_dir}
use elnssm.Api.Services.Validation.{any_char, is_separator}

-- A name of a file in a directory, without a path before it.
abbrev pub is_plain : String → Bool
is_plain f =
    not (any_char is_separator f)
    && (not (str_eq f "") && (not (str_eq f ".") && not (str_eq f "..")))

-- The file system: `join` is filepath.Join, and `is_same` whether two paths name the same file, as
-- Windows compares paths, without regard to case.
pub record FilePaths : Type 0 where
  pub join : String → String → String
  pub is_same : String → String → Bool

-- Plain names in one directory name the same file just if the names are the same to Windows, which
-- each is to itself.
pub record IsFilePaths (p : FilePaths) : Type 0 where
  pub same_file :
      (d f g : String)
      → is_plain f ≡ true
      → is_plain g ≡ true
      → p.is_same (p.join d f) (p.join d g) ≡ p.is_same f g
  pub same_refl : (f : String) → p.is_same f f ≡ true

-- Whether the file that a goroutine of Start writes is the file that the handlers open.
abbrev pub is_served : FilePaths → String → String → String × Logger → Bool
is_served p data_dir id (stream, l) = p.is_same l.filename (log_file p.join data_dir id stream)

plain_defaults : (is_plain "stdout.log" ≡ true) × (is_plain "stderr.log" ≡ true)
unfolding any_char
plain_defaults = (refl, refl)

in_dir :
    (w : FilePaths) (d dir f g : String)
    → IsFilePaths w
    → d ≡ dir
    → is_plain f ≡ true
    → is_plain g ≡ true
    → w.is_same (w.join d f) (w.join dir g) ≡ w.is_same f g
in_dir w d dir f g law e p q =
    subst (λ x. w.is_same (w.join x f) (w.join dir g) ≡ w.is_same f g) (sym e)
      (law.same_file dir f g p q)

is_served-default :
    (w : FilePaths) (f d : String)
    → IsFilePaths w
    → w.is_same (or_name f d) d ≡ str_eq f "" || w.is_same f d
is_served-default w f d law = ground (arith, law.same_refl d)

-- If the configured names are empty or plain file names, without a path, and the capture's directory is
-- the service's: the API serves the stdout of a service just if its configured name is empty or
-- the same to Windows as stdout.log, and the stderr just if that one's is empty or the same as
-- stderr.log; with combined output the stderr lines stand in the stdout file, and are served as
-- stderr just if that file's name is the same as stderr.log.
pub start-is_served :
    (w : FilePaths) (data_dir : String) (c : Capture)
    → IsFilePaths w
    → c.log_dir ≡ service_log_dir w.join data_dir c.service_id
    → is_plain (or_name c.config.stdout_file "stdout.log") ≡ true
    → is_plain (or_name c.config.stderr_file "stderr.log") ≡ true
    → map (is_served w data_dir c.service_id) (start w.join true c).1
      ≡ (str_eq c.config.stdout_file "" || w.is_same c.config.stdout_file "stdout.log")
        ∷ (if c.config.combine_output
            then w.is_same (or_name c.config.stdout_file "stdout.log") "stderr.log"
            else str_eq c.config.stderr_file "" || w.is_same c.config.stderr_file "stderr.log")
        ∷ []
unfolding start
start-is_served w data_dir c law e p q =
    let out = or_name c.config.stdout_file "stdout.log" in
    let err = or_name c.config.stderr_file "stderr.log" in
    let dir = service_log_dir w.join data_dir c.service_id in
    let plain_out : is_plain "stdout.log" ≡ true = plain_defaults.0 in
    let plain_err : is_plain "stderr.log" ≡ true = plain_defaults.1 in
    let out_served = in_dir w c.log_dir dir out "stdout.log" law e p plain_out in
    let both = in_dir w c.log_dir dir out "stderr.log" law e p plain_err in
    let err_served = in_dir w c.log_dir dir err "stderr.log" law e q plain_err in
    let by_stdout = is_served-default w c.config.stdout_file "stdout.log" law in
    let by_stderr = is_served-default w c.config.stderr_file "stderr.log" law in
    elim (Bool-cases c.config.combine_output) [
      | inl m ↦ rw (m, out_served, both, by_stdout) refl
      | inr m ↦ rw (m, out_served, err_served, by_stdout, by_stderr) refl
    ]
