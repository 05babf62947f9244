-- ===== src/Health/Runner/Defs.antt =====
-- internal/health/runner.go: what runCheck does at each tick of its ticker, given the result of the
-- check. Waiting and cancellation only decide how many ticks there are. The store's errors are only
-- logged.
use elnssm.Common.{
  ℕ, suc, ℤ, pos, eqb_ℤ, leb_ℤ, List, [], ◌∷◌, ◌++◌, Bool, true, false, length, ltb, if◌then◌else◌,
}
use elnssm.Model.{HealthStatus, healthy, unhealthy, unknown, HealthCheckConfig, HealthCheckResult}

-- `failure_ch` is the queue of the channel, `stored` the results appended to the history; `previous`
-- is previousStatus, which only decides a log line.
pub record CheckState : Type 0 where
  pub consecutive_failures : ℕ
  pub previous : HealthStatus
  pub last_healthy : Bool
  pub failure_ch : List HealthCheckResult
  pub stored : List HealthCheckResult

abbrev pub fresh_check : CheckState
fresh_check = record {
  consecutive_failures = 0;
  previous = unknown;
  last_healthy = false;
  failure_ch = [];
  stored = [];
}

-- make(chan model.HealthCheckResult, 10)
abbrev pub channel_size : ℕ
channel_size = 10

unfoldable pub effective_retries : HealthCheckConfig → ℤ
effective_retries cfg = if eqb_ℤ cfg.retries (pos 0) then pos 3 else cfg.retries

-- A send that never blocks: with the channel full the result is dropped.
unfoldable pub try_send : HealthCheckResult → List HealthCheckResult → List HealthCheckResult
try_send r ch = if ltb (length ch) channel_size then ch ++ r ∷ [] else ch

abbrev pub by_status :
    HealthStatus → HealthCheckConfig → HealthCheckResult → CheckState → CheckState
by_status unhealthy cfg r s = record s {
  consecutive_failures = suc s.consecutive_failures;
  last_healthy = false;
  failure_ch =
      if leb_ℤ (effective_retries cfg) (pos (suc s.consecutive_failures))
      then try_send r s.failure_ch
      else s.failure_ch;
}
by_status healthy cfg r s = record s { consecutive_failures = 0; last_healthy = true }
by_status unknown cfg r s = s

unfoldable pub on_result : HealthCheckConfig → CheckState → HealthCheckResult → CheckState
unfolding try_send effective_retries
on_result cfg s r =
    let after = by_status r.status cfg r (record s { stored = r ∷ s.stored }) in
    record after { previous = r.status }

unfoldable pub run_check : HealthCheckConfig → CheckState → List HealthCheckResult → CheckState
run_check cfg s [] = s
run_check cfg s (r ∷ rs) = run_check cfg (on_result cfg s r) rs
