-- ===== src/Manager/Limits.antt =====
-- What the restart policy of internal/manager/manager.go limits.
use elnssm.Common.{ℕ, suc, pos, ◌≤ℤ◌, true, false, ◌≡◌, ◌≢◌, ◌⊎◌, arith}
use elnssm.Model.{Service, ServiceState, always, on_failure, EventType}
use elnssm.Process.Wrapper.{ExitResult}
use elnssm.Manager.State.{
  System, state_of, with_config, save_runtime_state, emit_event, open_capture,
  start_resource_monitor, stop_resource_monitor, close_capture,
}
use elnssm.Manager.Policy.{should_restart}
use elnssm.Manager.Restart.{
  RestartWorld, do_restart, restart_after_breach, sleep_then_restart, stop_in_place, count_restart,
}
use elnssm.Manager.Monitor.{crash_exit, record_exit, handle_breach}

abbrev pub count_of : System → ℕ
count_of s = s.ms.config.restart_count

do_restart-count : (o : RestartWorld) (s : System) → count_of (do_restart o s).0 ≡ count_of s
unfolding do_restart save_runtime_state open_capture start_resource_monitor stop_resource_monitor
    close_capture
do_restart-count o s = ground arith

-- A mode with a limit: always or on_failure, with a max_retries that is not 0.
pub data IsLimited (svc : Service) : Type 0 where
  by_always :
      svc.restart_policy.mode ≡ always → svc.restart_policy.max_retries ≢ pos 0 → IsLimited svc
  by_failure :
      svc.restart_policy.mode ≡ on_failure → svc.restart_policy.max_retries ≢ pos 0 → IsLimited svc

-- Under a limited policy, if nothing else changes the restart count during the delay: either a crash
-- adds one to it and it is not above max_retries then, or it is at max_retries or above, and then it
-- stays, the service is set failed, and the monitor ends.
pub crash_exit_limit :
    (o : RestartWorld) (r : ExitResult) (s : System)
    → ((t : System) → count_of (o.interfere t) ≡ count_of t)
    → IsLimited s.ms.config
    → (count_of (crash_exit o r s).0 ≡ suc (count_of s))
        × (pos (count_of (crash_exit o r s).0) ≤ℤ s.ms.config.restart_policy.max_retries)
      ⊎ (count_of (crash_exit o r s).0 ≡ count_of s)
        × (s.ms.config.restart_policy.max_retries ≤ℤ pos (count_of s))
        × (state_of (crash_exit o r s).0 ≡ ServiceState.failed)
        × ((crash_exit o r s).1 ≡ false)
unfolding crash_exit emit_event save_runtime_state should_restart sleep_then_restart
crash_exit_limit o r s calm (by_always m z) =
    let counted =
      count_restart (emit_event EventType.service_crashed (with_config (record_exit r) s)) in
    ground (arith, calm counted, do_restart-count o (o.interfere counted))
crash_exit_limit o r s calm (by_failure m z) =
    let counted =
      count_restart (emit_event EventType.service_crashed (with_config (record_exit r) s)) in
    ground (arith, calm counted, do_restart-count o (o.interfere counted))

do_restart_running :
    (o : RestartWorld) (s : System)
    → (do_restart o s).1 ≡ true
    → state_of (do_restart o s).0 ≡ ServiceState.running
unfolding do_restart save_runtime_state open_capture start_resource_monitor stop_resource_monitor
    close_capture
do_restart_running o s h = ground arith

-- A resource breach restarts a service also where its restart policy permits no restart: if the
-- delay runs to its end with nothing else done to the service, and the new process starts, then the
-- service runs on and one more restart is counted.
pub handle_breach_ignores_policy :
    (o : RestartWorld) (s : System)
    → should_restart s.ms.config ≡ false
    → ((t : System) → o.interfere t ≡ t)
    → o.slept ≡ true
    → ((t : System) → (do_restart o t).1 ≡ true)
    → (state_of (handle_breach o s).0 ≡ ServiceState.running)
      × (count_of (handle_breach o s).0 ≡ suc (count_of s))
      × ((handle_breach o s).1 ≡ true)
unfolding handle_breach emit_event restart_after_breach sleep_then_restart stop_in_place
handle_breach_ignores_policy o s refused calm sl ok =
    let seen = emit_event EventType.resource_threshold_breached s in
    let counted = stop_in_place o.shutdown (count_restart seen) in
    ground
      (arith, calm counted, ok counted, do_restart_running o counted, do_restart-count o counted)
