-- ===== src/Examples/Processes.antt =====
-- The wrapper's theorems on the process of the web service.
use elnssm.Common.{pos, ◌≡◌, ◌≢◌, ◌≤ℤ◌, ◌⊎◌, none, some, true, false, any, [], refl, arith}
use elnssm.Model.{Service}
use elnssm.Process.Wrapper.Control.{exit_result}
use elnssm.Process.Wrapper.Defs.{max_uint32}
use elnssm.Process.Wrapper.{Launch, new_wrapper, start, stop, bad_pid}
use elnssm.Process.Wrapper.Lifecycle.{
  holds_job, is_terminate, is_kill, start_outcome, stop_ends_process,
}
use elnssm.Examples.Data.{web, launch, stubborn, running_wrapper}

start_outcome_example :
    ((start (new_wrapper web) launch).1 ≡ none)
      × ((start (new_wrapper web) launch).0.running ≡ true)
      × (holds_job (start (new_wrapper web) launch).0 ≡ true)
      × ((start (new_wrapper web) launch).0.cmd_ctx ≡ some false)
      × (launch.pid ≡ some (start (new_wrapper web) launch).0.pid)
      × (pos 0 ≤ℤ (start (new_wrapper web) launch).0.pid)
      × ((start (new_wrapper web) launch).0.pid ≤ℤ max_uint32)
    ⊎ ((start (new_wrapper web) launch).1 ≢ none)
      × ((start (new_wrapper web) launch).0.running ≡ false)
start_outcome_example = start_outcome web launch

-- The account cannot log on.
abbrev refused : Launch
refused = record launch { logon = false }

abbrev web_with_account : Service
web_with_account = record web { service_account = "svc"; service_account_password = "secret" }

stop_ends_process_example :
    (stubborn.waited ≡ exit_result) × ((stop running_wrapper stubborn).wrapper.exit_ch ≡ [])
    ⊎ (any is_terminate (stop running_wrapper stubborn).signals ≡ true)
      × ((stubborn.terminate ≡ true)
          ⊎ (running_wrapper.cmd ≡ false)
          ⊎ (any is_kill (stop running_wrapper stubborn).signals ≡ true))
unfolding bad_pid
stop_ends_process_example = stop_ends_process running_wrapper stubborn refl refl (ground arith)
