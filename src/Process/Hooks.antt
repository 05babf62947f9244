-- ===== src/Process/Hooks.antt =====
-- internal/process/hooks.go: ExecuteHook. The regular expression of cmdlets, strings.Contains,
-- strings.HasSuffix, the process that runs and os.Environ are parameters.
use elnssm.Common.{
  ℤ, pos, leb_ℤ, String, str_eq, List, [], ◌∷◌, ◌++◌, any, Option, none, some, Bool, not, Dict,
  ◌||◌, if◌then◌else◌,
}
use Prim.Native.String as Text
use elnssm.Model.{LifecycleHook}
use elnssm.Process.TempScript.{
  Effect, removes, runs, TempWorld, Written, written, refused, write_temp, markers,
}

pub record HookTexts : Type 0 where
  pub is_cmdlet : String → Bool  -- hookCmdletRe.MatchString
  pub contains : String → String → Bool
  pub has_suffix : String → String → Bool

unfoldable pub is_power_shell_script : HookTexts → String → Bool
is_power_shell_script t body = t.is_cmdlet body || any (λ m. t.contains body m) markers

-- The extension that writeTempScript chooses.
abbrev pub pattern : HookTexts → String → String
pattern t body = if is_power_shell_script t body then "elnssm-hook-*.ps1" else "elnssm-hook-*.cmd"

-- What cmd.CombinedOutput gives for a program, its arguments, its environment (none is the
-- Guardian's own) and the timeout.
abbrev pub Runs : Type 0
Runs = String → List String → Option (List String) → ℤ → String × Option String

pub record HookWorld : Type 0 where
  pub temp : TempWorld
  pub environ : List String
  pub combined_output : Runs

-- The output, the error's text, and what was done.
pub record HookResult : Type 0 where
  pub output : String
  pub error : Option String
  pub effects : List Effect

abbrev pub hook_timeout : LifecycleHook → ℤ
hook_timeout hook = if leb_ℤ hook.timeout (pos 0) then pos 30000000000 else hook.timeout

abbrev pub assignments : Dict String → List String
assignments [] = []
assignments ((k, v) ∷ env) = Text.◌++◌ k (Text.◌++◌ "=" v) ∷ assignments env

abbrev pub hook_env : HookWorld → Dict String → Option (List String)
hook_env w [] = none
hook_env w (e ∷ env) = some (w.environ ++ assignments (e ∷ env))

abbrev pub script_command : HookTexts → String → String × List String
script_command t file =
    if t.has_suffix file ".ps1"
    then ("powershell", "-ExecutionPolicy" ∷ "Bypass" ∷ "-File" ∷ file ∷ [])
    else ("cmd", "/C" ∷ file ∷ [])

abbrev pub run_hook :
    HookWorld
    → LifecycleHook
    → Dict String
    → String × List String
    → Option String
    → List Effect
    → HookResult
run_hook w hook env (program, args) file before =
    let (output, error) = w.combined_output program args (hook_env w env) (hook_timeout hook) in
    record { output = output; error = error; effects = before ++ runs program args file ∷ [] }

-- defer os.Remove(tmpFile)
abbrev pub remove_after : String → HookResult → HookResult
remove_after file r = record r { effects = r.effects ++ removes file ∷ [] }

abbrev pub run_script :
    HookTexts → HookWorld → LifecycleHook → Dict String → Written × List Effect → HookResult
run_script t w hook env (refused e, before) = record {
  output = "";
  error = some (Text.◌++◌ "writing temp script: " e);
  effects = before;
}
run_script t w hook env (written file, before) =
    remove_after file (run_hook w hook env (script_command t file) (some file) before)

abbrev pub run_configured : HookTexts → HookWorld → Dict String → LifecycleHook → HookResult
run_configured t w env hook =
    if not (str_eq hook.script "")
    then run_script t w hook env (write_temp w.temp (pattern t hook.script))
    else if not (str_eq hook.command "")
    then run_hook w hook env (hook.command, hook.args) none []
    else record { output = ""; error = none; effects = [] }

unfoldable pub execute_hook :
    HookTexts → HookWorld → Option LifecycleHook → Dict String → HookResult
unfolding write_temp is_power_shell_script
execute_hook t w none env = record { output = ""; error = none; effects = [] }
execute_hook t w (some hook) env = run_configured t w env hook
