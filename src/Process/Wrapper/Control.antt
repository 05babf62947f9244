-- ===== src/Process/Wrapper/Control.antt =====
-- internal/process/wrapper.go: stopping, closing, detaching and adopting a process, and what the
-- wait goroutines report. The calls that reach the operating system are listed as `Signal`s.
use elnssm.Common.{
  ℤ, pos, eqb_ℤ, String, List, [], ◌∷◌, ◌++◌, Option, none, some, Bool, true, false, not, is_some,
  if◌then◌else◌,
}
use elnssm.Model.{StopSignal}
use elnssm.Process.Wrapper.Defs.{
  ExitResult, Wrapper, Error, invalid_pid, kill, already_running, not_found, exited, create_job,
  bad_pid, new_job, close_job, call_cancel,
}

pub data Signal : Type 0 where
  ctrl_c ctrl_break wm_close : ℤ → Signal
  terminate_job kill_process : Signal

-- What the select of phase 2 receives first.
pub data Waited : Type 0 where
  exit_result timed_out ctx_done : Waited

-- The answers of the calls that Stop makes.
pub record Shutdown : Type 0 where
  pub waited : Waited
  pub terminate : Bool
  pub kill : Bool

pub record Stopped : Type 0 where
  pub wrapper : Wrapper
  pub error : Option Error
  pub signals : List Signal

abbrev kill_directly : Wrapper → Shutdown → List Signal → Stopped
kill_directly w o sent =
    if w.cmd
    then record {
      wrapper = w;
      error = if o.kill then none else some kill;
      signals = sent ++ kill_process ∷ [];
    }
    else record { wrapper = w; error = none; signals = sent }

force_kill : Wrapper → Shutdown → List Signal → Stopped
force_kill w o sent =
    if is_some w.job_object
    then if o.terminate
      then record { wrapper = w; error = none; signals = sent ++ terminate_job ∷ [] }
      else kill_directly w o (sent ++ terminate_job ∷ [])
    else kill_directly w o sent

-- Phases 2 and 3: the exit result is taken from the channel, or the process is killed.
unfoldable pub await_exit : Waited → Wrapper → Shutdown → List Signal → Stopped
unfolding force_kill
await_exit exit_result w o sent = record {
  wrapper = record w { exit_ch = [] };
  error = none;
  signals = sent;
}
await_exit _ w o sent = force_kill w o sent

-- Phase 1 sends the configured signal; a signal that no constant names sends none.
unfoldable pub send_stop : StopSignal → Wrapper → Shutdown → Stopped
unfolding await_exit force_kill
send_stop StopSignal.ctrl_c w o = await_exit o.waited w o (ctrl_c w.pid ∷ [])
send_stop StopSignal.unset w o = await_exit o.waited w o (ctrl_c w.pid ∷ [])
send_stop StopSignal.ctrl_break w o = await_exit o.waited w o (ctrl_break w.pid ∷ [])
send_stop StopSignal.wm_close w o = await_exit o.waited w o (wm_close w.pid ∷ [])
send_stop StopSignal.terminate w o = force_kill w o []
send_stop (StopSignal.other s) w o = await_exit o.waited w o []

unfoldable pub stop : Wrapper → Shutdown → Stopped
unfolding send_stop bad_pid
stop w o =
    if not w.running
    then record { wrapper = w; error = none; signals = [] }
    else if bad_pid w.pid
    then record { wrapper = w; error = some invalid_pid; signals = [] }
    else send_stop w.config.stop_signal w o

-- Close sets kill-on-close before it closes the job's handle.
abbrev pub kill_on_close : Wrapper → Wrapper
kill_on_close w = record w {
  job_object = elim w.job_object [
    | none ↦ none
    | some j ↦ some (record j { kill_on_close = true })
  ];
}

unfoldable pub close : Wrapper → Wrapper
close w = close_job (kill_on_close (call_cancel w))

-- The cancel function is that of exec.CommandContext. What os/exec does when it is called, which is to
-- kill the process, happens outside the wrapper and is not in this record.
unfoldable pub detach : Wrapper → Wrapper
detach w = record (call_cancel w) {
  cancel = false;
  stdout = false;
  stderr = false;
  job_object = none;
  running = false;
}

-- The answers of the calls that Adopt makes.
pub record Adoption : Type 0 where
  pub opened : Bool
  pub alive : Bool
  pub job : Bool

unfoldable pub adopt : Wrapper → ℤ → Adoption → Wrapper × Option Error
unfolding bad_pid
adopt w p o =
    if w.running
    then (w, some already_running)
    else if bad_pid p
    then (w, some invalid_pid)
    else if not o.opened
    then (w, some not_found)
    else if not o.alive
    then (w, some exited)
    else if not o.job
    then (w, some create_job)
    else (record w { job_object = some new_job; pid = p; running = true; exit_ch = [] }, none)

-- The error of cmd.Wait: an exec.ExitError carries the exit code.
pub data WaitError : Type 0 where
  exit_error : ℤ → String → WaitError
  io_error : String → WaitError

unfoldable pub classify_exit : Option WaitError → Option Bool → ExitResult
classify_exit none ctx = record { exit_code = pos 0; error = none; crashed = false }
classify_exit (some (exit_error code message)) ctx = record {
  exit_code = code;
  error = some message;
  crashed = true;
}
classify_exit (some (io_error message)) (some true) = record {
  exit_code = pos 0;
  error = some message;
  crashed = false;
}
classify_exit (some (io_error message)) _ = record {
  exit_code = pos 0;
  error = some message;
  crashed = true;
}

-- The wait goroutine of Start, when cmd.Wait returns; and that of Adopt.
unfoldable pub child_exited : Wrapper → Option WaitError → Wrapper
unfolding classify_exit
child_exited w e = record w {
  running = false;
  exit_ch = w.exit_ch ++ classify_exit e w.cmd_ctx ∷ [];
}

unfoldable pub adopted_exited : Wrapper → ℤ → Wrapper
adopted_exited w code = record w {
  running = false;
  exit_ch =
      w.exit_ch
      ++ record { exit_code = code; error = none; crashed = not (eqb_ℤ code (pos 0)) } ∷ [];
}
