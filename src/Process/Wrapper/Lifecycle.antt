-- ===== src/Process/Wrapper/Lifecycle.antt =====
-- What the methods of a Wrapper (internal/process/wrapper.go) leave behind.
use elnssm.Common.{ℤ, pos, ◌≤ℤ◌, any, [], none, some, Bool, true, false, ◌≡◌, ◌≢◌, ◌⊎◌, arith}
use elnssm.Model.{Service}
use elnssm.Process.Wrapper.Defs.{
  Wrapper, logon, invalid_pid, Launch, new_wrapper, start, bad_pid, max_uint32,
}
use elnssm.Process.Wrapper.Control.{
  Signal, terminate_job, kill_process, exit_result, Shutdown, stop, detach, Adoption, adopt,
}

-- A job object's handle that this wrapper still holds open.
abbrev pub holds_job : Wrapper → Bool
holds_job w = elim w.job_object [ none ↦ false | some j ↦ j.open_handle ]

-- Start on a fresh wrapper either succeeds, with a running process whose PID is the spawned one
-- and a uint32, an open job object and a live command context; or it fails with an error and a
-- wrapper that is not running.
pub start_outcome :
    (c : Service) (o : Launch)
    → ((start (new_wrapper c) o).1 ≡ none)
        × ((start (new_wrapper c) o).0.running ≡ true)
        × (holds_job (start (new_wrapper c) o).0 ≡ true)
        × ((start (new_wrapper c) o).0.cmd_ctx ≡ some false)
        × (o.pid ≡ some (start (new_wrapper c) o).0.pid)
        × (pos 0 ≤ℤ (start (new_wrapper c) o).0.pid)
        × ((start (new_wrapper c) o).0.pid ≤ℤ max_uint32)
      ⊎ ((start (new_wrapper c) o).1 ≢ none) × ((start (new_wrapper c) o).0.running ≡ false)
unfolding start new_wrapper
start_outcome c o = ground arith

-- A Start that fails on a fresh wrapper has closed the job object that it made, unless the logon
-- failed or the PID was out of range: in those two cases the handle stays open.
pub start_error_job :
    (c : Service) (o : Launch)
    → ((start (new_wrapper c) o).1 ≢ none)
    → (holds_job (start (new_wrapper c) o).0 ≡ false)
      ⊎ ((start (new_wrapper c) o).1 ≡ some logon) × (holds_job (start (new_wrapper c) o).0 ≡ true)
      ⊎ ((start (new_wrapper c) o).1 ≡ some invalid_pid)
        × (holds_job (start (new_wrapper c) o).0 ≡ true)
unfolding start new_wrapper
start_error_job c o h = ground arith

abbrev pub is_terminate : Signal → Bool
is_terminate terminate_job = true
is_terminate _ = false

abbrev pub is_kill : Signal → Bool
is_kill kill_process = true
is_kill _ = false

-- Stop on a running process with a PID in range and a job object: it has received the exit result
-- (and then the exit channel is empty), or it has told the job object to terminate, and then that
-- works, or the process was adopted (there is no command), or it has killed the process directly.
pub stop_ends_process :
    (w : Wrapper) (o : Shutdown)
    → w.running ≡ true
    → bad_pid w.pid ≡ false
    → w.job_object ≢ none
    → (o.waited ≡ exit_result) × ((stop w o).wrapper.exit_ch ≡ [])
      ⊎ (any is_terminate (stop w o).signals ≡ true)
        × ((o.terminate ≡ true) ⊎ (w.cmd ≡ false) ⊎ (any is_kill (stop w o).signals ≡ true))
unfolding stop
stop_ends_process w o r p j = ground arith

-- On an adopted process a failed job termination goes unnoticed: when no exit result arrives, Stop
-- returns no error, although it has killed nothing.
pub stop_adopted_silent :
    (w : Wrapper) (p : ℤ) (a : Adoption) (o : Shutdown)
    → w.cmd ≡ false
    → (adopt w p a).1 ≡ none
    → o.waited ≢ exit_result
    → o.terminate ≡ false
    → ((stop (adopt w p a).0 o).error ≡ none)
      × (any is_kill (stop (adopt w p a).0 o).signals ≡ false)
      × ((stop (adopt w p a).0 o).wrapper.running ≡ true)
unfolding stop adopt
stop_adopted_silent w p a o c e x t = ground arith

-- Detach after a successful Start cancels the context that exec.CommandContext was given, and the
-- wrapper no longer runs. Detach after a successful Adopt on a fresh wrapper cancels no context.
pub detach_contexts :
    (c : Service) (o : Launch) (p : ℤ) (a : Adoption)
    → (start (new_wrapper c) o).1 ≡ none
    → (adopt (new_wrapper c) p a).1 ≡ none
    → ((detach (start (new_wrapper c) o).0).cmd_ctx ≡ some true)
      × ((detach (adopt (new_wrapper c) p a).0).cmd_ctx ≡ none)
      × ((detach (start (new_wrapper c) o).0).running ≡ false)
unfolding start new_wrapper detach adopt
detach_contexts c o p a h k = ground arith
