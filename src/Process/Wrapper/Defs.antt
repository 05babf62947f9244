-- ===== src/Process/Wrapper/Defs.antt =====
-- internal/process/wrapper.go: the state of a Wrapper and its methods. What Windows and os/exec
-- answer is a `Launch` or `Shutdown` value; a method returns the new wrapper with its error.
use elnssm.Common.{
  ℤ, pos, ltb_ℤ, str_eq, String, List, [], Option, none, some, Bool, true, false, not, ◌&&◌, ◌||◌,
  if◌then◌else◌,
}
use elnssm.Model.{Service}

-- A job object's handle, and whether closing it kills the processes in it.
pub record Job : Type 0 where
  pub open_handle : Bool
  pub kill_on_close : Bool

pub record ExitResult : Type 0 where
  pub exit_code : ℤ
  pub error : Option String
  pub crashed : Bool

-- `cmd_ctx` is the context given to exec.CommandContext with its cancel function: `some true` once
-- it was cancelled. `cancel` is whether the field w.cancel still holds that function.
pub record Wrapper : Type 0 where
  pub config : Service
  pub cmd : Bool
  pub job_object : Option Job
  pub pid : ℤ
  pub exit_ch : List ExitResult
  pub stdout : Bool
  pub stderr : Bool
  pub cmd_ctx : Option Bool
  pub cancel : Bool
  pub running : Bool

pub data Error : Type 0 where
  already_running create_job logon stdout_pipe stderr_pipe spawn not_found exited : Error
  invalid_pid kill : Error

abbrev pub max_uint32 : ℤ
max_uint32 = pos 4294967295

unfoldable pub bad_pid : ℤ → Bool
bad_pid p = ltb_ℤ p (pos 0) || ltb_ℤ max_uint32 p

unfoldable pub new_wrapper : Service → Wrapper
new_wrapper svc = record {
  config = svc;
  cmd = false;
  job_object = none;
  pid = pos 0;
  exit_ch = [];
  stdout = false;
  stderr = false;
  cmd_ctx = none;
  cancel = false;
  running = false;
}

-- The answers of the calls that Start makes; `pid` is none when cmd.Start fails.
pub record Launch : Type 0 where
  pub job : Bool
  pub logon : Bool
  pub stdout : Bool
  pub stderr : Bool
  pub pid : Option ℤ

abbrev pub new_job : Job
new_job = record { open_handle = true; kill_on_close = false }

-- JobObject.Close, and calling the cancel function of the command's context.
abbrev pub close_job : Wrapper → Wrapper
close_job w = record w {
  job_object = elim w.job_object [ none ↦ none | some j ↦ some (record j { open_handle = false }) ];
}

abbrev pub call_cancel : Wrapper → Wrapper
call_cancel w = if w.cancel then record w { cmd_ctx = some true } else w

abbrev pub needs_logon : Service → Bool
needs_logon c = not (str_eq c.service_account "") && not (str_eq c.service_account_password "")

-- The part of Start behind the pipes: spawn the process and check its PID.
unfoldable pub start_process : Wrapper → Option ℤ → Wrapper × Option Error
unfolding bad_pid
start_process w none = (call_cancel (close_job w), some spawn)
start_process w (some p) =
    let started = record w { cmd = true; pid = p } in
    if bad_pid p then (started, some invalid_pid) else (record started { running = true }, none)

unfoldable pub start : Wrapper → Launch → Wrapper × Option Error
unfolding start_process
start w o =
    if w.running
    then (w, some already_running)
    else if not o.job
    then (w, some create_job)
    else let armed = record w { job_object = some new_job; cmd_ctx = some false; cancel = true } in
      if needs_logon w.config && not o.logon
      then (call_cancel armed, some logon)
      else if not o.stdout
      then (call_cancel (close_job armed), some stdout_pipe)
      else let piped = record armed { stdout = true } in
        if not o.stderr
        then (call_cancel (close_job piped), some stderr_pipe)
        else start_process (record piped { stderr = true }) o.pid
