-- ===== src/Guardian/Service.antt =====
-- internal/guardian/service_handler.go: Execute, as what it tells the service control manager. The
-- events are what its select receives: a change request, or that Run has returned.
use elnssm.Common.{ℕ, List, [], ◌∷◌, Option, none, some, Bool, true, false, if◌then◌else◌}

pub data Status : Type 0 where
  start_pending running stop_pending stopped other_status : Status

pub data Request : Type 0 where
  interrogate : Status → Request
  stop shutdown other : Request

-- `returned`: Run returns, with an error or with none.
pub data ScmEvent : Type 0 where
  change : Request → ScmEvent
  returned : Bool → ScmEvent

-- <-errCh: whether Run returns; change requests are not received meanwhile.
unfoldable pub run_returns : List ScmEvent → Bool
run_returns [] = false
run_returns (change r ∷ events) = run_returns events
run_returns (returned e ∷ events) = true

abbrev pub Executed : Type 0
Executed = List Status × Option (Bool × ℕ)

abbrev pub says : Status → Executed → Executed
says st (told, result) = (st ∷ told, result)

abbrev stops : Bool → Executed
stops true = (stop_pending ∷ stopped ∷ [], some (false, 0))
stops false = (stop_pending ∷ [], none)

-- The loop; no result is that it still runs.
unfoldable pub execute_loop : List ScmEvent → Executed
execute_loop [] = ([], none)
execute_loop (change (interrogate st) ∷ events) = says st (execute_loop events)
execute_loop (change stop ∷ events) = stops (run_returns events)
execute_loop (change shutdown ∷ events) = stops (run_returns events)
execute_loop (change other ∷ events) = execute_loop events
execute_loop (returned error ∷ events) = ([], some (error, if error then 1 else 0))

-- Execute: whether New returns a Guardian.
unfoldable pub execute : Bool → List ScmEvent → Executed
execute created events =
    if created
    then says start_pending (says running (execute_loop events))
    else (start_pending ∷ stop_pending ∷ [], some (true, 1))
