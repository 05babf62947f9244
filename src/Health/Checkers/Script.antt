-- ===== src/Health/Checkers/Script.antt =====
-- internal/health/script_check.go, and NewChecker of checker.go. The process that runs is a parameter.
use elnssm.Common.{
  ℕ, ℤ, pos, eqb_ℤ, String, str_eq, List, [], ◌∷◌, ◌++◌, any, Option, none, some, Bool, not, ◌||◌,
  if◌then◌else◌,
}
use Prim.Native.String as Text
use elnssm.Model.{HealthCheckConfig, HealthCheckResult}
use elnssm.Process.TempScript.{
  Effect, removes, runs, TempWorld, Written, written, refused, write_temp, markers,
}
use elnssm.Health.Checkers.Defs.{CheckTexts, truncate, fails, passes}
use elnssm.Health.Checkers.Network.{HttpWorld, TcpWorld, check_http, check_tcp}

pub data Shell : Type 0 where
  cmd power_shell : Shell

unfoldable pub looks_like_power_shell : CheckTexts → String → Bool
looks_like_power_shell t body = t.is_cmdlet body || any (λ m. t.contains body m) markers

-- ScriptShell, with the configured interpreter and the body
unfoldable pub script_shell : CheckTexts → String → String → Shell
script_shell t interpreter body =
    let given = t.to_lower (t.trim_space interpreter) in
    if str_eq given "powershell" || (str_eq given "pwsh" || str_eq given "ps1")
    then power_shell
    else if str_eq given "cmd" || (str_eq given "batch" || str_eq given "bat")
    then cmd
    else if looks_like_power_shell t body
    then power_shell
    else cmd

-- The pattern of writeTempScript's file, and the command that reads the file.
abbrev pub script_pattern : Shell → String
script_pattern power_shell = "elnssm-hc-*.ps1"
script_pattern cmd = "elnssm-hc-*.cmd"

abbrev pub shell_command : Shell → String → String × List String
shell_command power_shell file = ("powershell", "-ExecutionPolicy" ∷ "Bypass" ∷ "-File" ∷ file ∷ [])
shell_command cmd file = ("cmd", "/C" ∷ file ∷ [])

-- What the temporary file and cmd.CombinedOutput answer; the number is the timeout.
pub record ScriptWorld : Type 0 where
  pub temp : TempWorld
  pub combined_output : String → List String → ℤ → String × Option String

pub record ScriptResult : Type 0 where
  pub check : HealthCheckResult
  pub effects : List Effect

abbrev pub script_timeout : HealthCheckConfig → ℤ
script_timeout cfg = if eqb_ℤ cfg.timeout (pos 0) then pos 30000000000 else cfg.timeout

abbrev pub in_parens : CheckTexts → String → ℕ → String
in_parens t output n = Text.◌++◌ " (output: " (Text.◌++◌ (truncate t output n) ")")

abbrev pub script_result : CheckTexts → ℕ → String × Option String → HealthCheckResult
script_result t start (output, some e) =
    fails "script" start (Text.◌++◌ "script failed: " (Text.◌++◌ e (in_parens t output 500)))
script_result t start (output, none) =
    passes "script" start (Text.◌++◌ "script passed" (in_parens t output 200))

abbrev pub run_command :
    CheckTexts
    → ScriptWorld
    → ℕ
    → HealthCheckConfig
    → String × List String
    → Option String
    → List Effect
    → List Effect
    → ScriptResult
run_command t w start cfg (program, args) file before after = record {
  check = script_result t start (w.combined_output program args (script_timeout cfg));
  effects = before ++ runs program args file ∷ after;
}

abbrev pub run_inline :
    CheckTexts → ScriptWorld → ℕ → HealthCheckConfig → Shell → Written × List Effect → ScriptResult
run_inline t w start cfg shell (refused e, before) = record {
  check = fails "script" start (Text.◌++◌ "failed to write temp script: " e);
  effects = before;
}
run_inline t w start cfg shell (written file, before) =
    run_command t w start cfg (shell_command shell file) (some file) before (removes file ∷ [])

-- ScriptChecker.Check
unfoldable pub check_script : CheckTexts → ScriptWorld → ℕ → HealthCheckConfig → ScriptResult
check_script t w start cfg =
    let shell = script_shell t cfg.interpreter cfg.script_body in
    if not (str_eq cfg.script_body "")
    then run_inline t w start cfg shell (write_temp w.temp (script_pattern shell))
    else run_command t w start cfg ("cmd", "/C" ∷ cfg.target ∷ []) none [] []

pub record CheckWorld : Type 0 where
  pub http : HttpWorld
  pub tcp : TcpWorld
  pub script : ScriptWorld

-- NewChecker, and the Check of what it makes; none is its error.
unfoldable pub check : CheckTexts → CheckWorld → ℕ → HealthCheckConfig → Option HealthCheckResult
check t w start cfg =
    if str_eq cfg.type "http"
    then some (check_http t w.http start cfg)
    else if str_eq cfg.type "tcp"
    then some (check_tcp t w.tcp start cfg)
    else if str_eq cfg.type "script"
    then some (check_script t w.script start cfg).check
    else none
