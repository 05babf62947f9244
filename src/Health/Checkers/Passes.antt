-- ===== src/Health/Checkers/Passes.antt =====
-- When a health check passes, told apart from how its checker finds out, and that a script check leaves
-- no file behind.
use elnssm.Common.{
  ℕ, eqb_ℤ, String, str_eq, [], ◌∷◌, Option, none, some, is_some, Bool, true, false, not, ◌&&◌,
  ◌||◌, ◌≡◌, refl, inl, inr, Bool-cases, arith, if◌then◌else◌,
}
use Prim.Native.String as Text
use elnssm.Model.{HealthCheckConfig, HealthCheckResult, HealthStatus, healthy, unhealthy}
use elnssm.Process.TempScript.{Written, written, refused, write_temp}
use elnssm.Process.Removed.{
  IsCleaned, write_temp-cases, nothing_done, created_then_removed, run_then_removed,
}
use elnssm.Health.Checkers.Defs.{CheckTexts}
use elnssm.Health.Checkers.Network.{
  Answer, error, value, HttpResponse, HttpWorld, TcpWorld, http_method, expected_status,
  tcp_timeout, check_response, check_http, exchange, check_tcp,
}
use elnssm.Health.Checkers.Script.{
  ScriptWorld, CheckWorld, Shell, script_shell, script_pattern, shell_command, script_timeout,
  check_script, run_inline, check,
}

-- A text that was received and holds the expected one; no text is expected by an empty one.
abbrev pub is_answer : CheckTexts → String → Answer String → Bool
is_answer t expected (error e) = false
is_answer t expected (value text) = t.contains text expected

abbrev pub is_response : CheckTexts → HealthCheckConfig → Answer HttpResponse → Bool
is_response t cfg (error e) = false
is_response t cfg (value r) =
    eqb_ℤ r.status_code (expected_status cfg)
    && (str_eq cfg.expect_body "" || is_answer t cfg.expect_body r.body)

-- The request is sent, and answered with the expected status and, if wanted, the expected text.
abbrev pub http_passes : CheckTexts → HttpWorld → HealthCheckConfig → Bool
http_passes t w cfg =
    not (is_some (w.new_request (http_method cfg) cfg.target))
    && is_response t cfg (w.send_request (http_method cfg) cfg.target cfg.timeout)

-- The connection is made, and the exchange succeeds if one is configured.
abbrev pub tcp_passes : CheckTexts → TcpWorld → HealthCheckConfig → Bool
tcp_passes t w cfg =
    not (is_some (w.dial cfg.target (tcp_timeout cfg)))
    && ((str_eq cfg.send "" && str_eq cfg.expect_resp "")
        || (not (is_some w.set_deadline)
            && ((str_eq cfg.send "" || not (is_some (w.write (Text.◌++◌ cfg.send "\r\n"))))
                && (str_eq cfg.expect_resp "" || is_answer t cfg.expect_resp w.read))))

abbrev pub is_written : Written → Bool
is_written (written f) = true
is_written (refused e) = false

-- What runs for a script that is written to a file.
abbrev pub inline_passes : ScriptWorld → HealthCheckConfig → Shell → Written → Bool
inline_passes w cfg shell (refused e) = false
inline_passes w cfg shell (written f) =
    let (program, args) = shell_command shell f in
    not (is_some (w.combined_output program args (script_timeout cfg)).1)

-- The command, or the written script, ends without an error.
abbrev pub script_passes : CheckTexts → ScriptWorld → HealthCheckConfig → Bool
script_passes t w cfg =
    let shell = script_shell t cfg.interpreter cfg.script_body in
    if str_eq cfg.script_body ""
    then not (is_some (w.combined_output "cmd" ("/C" ∷ cfg.target ∷ []) (script_timeout cfg)).1)
    else inline_passes w cfg shell (write_temp w.temp (script_pattern shell)).0

abbrev pub verdict : Bool → HealthStatus
verdict passed = if passed then healthy else unhealthy

abbrev pub status_of : Option HealthCheckResult → Option HealthStatus
status_of none = none
status_of (some r) = some r.status

check_http-passes :
    (t : CheckTexts) (w : HttpWorld) (start : ℕ) (cfg : HealthCheckConfig)
    → (check_http t w start cfg).status ≡ verdict (http_passes t w cfg)
unfolding check_http check_response
check_http-passes t w start cfg = ground arith

check_tcp-passes :
    (t : CheckTexts) (w : TcpWorld) (start : ℕ) (cfg : HealthCheckConfig)
    → (check_tcp t w start cfg).status ≡ verdict (tcp_passes t w cfg)
unfolding check_tcp exchange
check_tcp-passes t w start cfg = ground arith

check_script-passes :
    (t : CheckTexts) (w : ScriptWorld) (start : ℕ) (cfg : HealthCheckConfig)
    → (check_script t w start cfg).check.status ≡ verdict (script_passes t w cfg)
unfolding check_script
check_script-passes t w start cfg = ground arith

-- A check of a known type gives a result that is healthy or unhealthy, as the check passes or not; of
-- another type there is no checker.
pub check-passes :
    (t : CheckTexts) (w : CheckWorld) (start : ℕ) (cfg : HealthCheckConfig)
    → status_of (check t w start cfg) ≡ (
        if str_eq cfg.type "http"
        then some (verdict (http_passes t w.http cfg))
        else if str_eq cfg.type "tcp"
        then some (verdict (tcp_passes t w.tcp cfg))
        else if str_eq cfg.type "script"
        then some (verdict (script_passes t w.script cfg))
        else none)
unfolding check
check-passes t w start cfg = ground (
  arith,
  check_http-passes t w.http start cfg,
  check_tcp-passes t w.tcp start cfg,
  check_script-passes t w.script start cfg,
)

inline-IsCleaned :
    (ok : String → Bool) (t : CheckTexts) (w : ScriptWorld) (start : ℕ) (cfg : HealthCheckConfig)
    (shell : Shell)
    → IsCleaned ok
        (run_inline t w start cfg shell (write_temp w.temp (script_pattern shell))).effects
inline-IsCleaned ok t w start cfg shell =
    write_temp-cases (λ x. IsCleaned ok (run_inline t w start cfg shell x).effects) w.temp
      (script_pattern shell) (λ e. nothing_done ok) (λ e f. created_then_removed ok f)
      (λ f. run_then_removed ok f (shell_command shell f).0 (shell_command shell f).1)

-- Whatever fails, a check creates at most one temporary file, its script is run while the file exists,
-- and in the end the file is gone, unless os.Remove fails on it.
pub check_script-IsCleaned :
    (ok : String → Bool) (t : CheckTexts) (w : ScriptWorld) (start : ℕ) (cfg : HealthCheckConfig)
    → IsCleaned ok (check_script t w start cfg).effects
unfolding check_script
check_script-IsCleaned ok t w start cfg = elim (Bool-cases (str_eq cfg.script_body "")) [
  | inl is_command ↦ rw is_command (omega arith, refl)
  | inr inline ↦
      rw inline (inline-IsCleaned ok t w start cfg (script_shell t cfg.interpreter cfg.script_body))
]
