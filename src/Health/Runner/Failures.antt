-- ===== src/Health/Runner/Failures.antt =====
-- When runCheck (internal/health/runner.go) reports a failure.
use elnssm.Common.{
  ℕ, suc, ◌≤◌, ◌<◌, pos, ◌≤ℤ◌, ◌<ℤ◌, List, [], ◌∷◌, ◌++◌, Bool, true, false, length, length-append,
  ◌≡◌, ◌≢◌, ◌⊎◌, arith,
}
use elnssm.Model.{healthy, unhealthy, unknown, HealthCheckConfig, HealthCheckResult}
use elnssm.Health.Runner.Defs.{CheckState, channel_size, effective_retries, on_result, run_check}

-- The unhealthy results since the last healthy one, the latest result first. An unknown result
-- neither counts nor ends the run.
unfoldable pub failing_run : List HealthCheckResult → ℕ
failing_run [] = 0
failing_run (r ∷ rs) =
    let rest = failing_run rs in
    elim r.status [ unhealthy ↦ suc rest | healthy ↦ 0 | unknown ↦ rest ]

-- The status of the last result that is not unknown is healthy.
unfoldable pub last_known_healthy : List HealthCheckResult → Bool
last_known_healthy [] = false
last_known_healthy (r ∷ rs) =
    let rest = last_known_healthy rs in
    elim r.status [ unhealthy ↦ false | healthy ↦ true | unknown ↦ rest ]

pub record IsSummary (s : CheckState) : Type 0 where
  pub counted : s.consecutive_failures ≡ failing_run s.stored
  pub flagged : s.last_healthy ≡ last_known_healthy s.stored
  pub bounded : length s.failure_ch ≤ channel_size

on_result-IsSummary :
    (cfg : HealthCheckConfig) (s : CheckState) (r : HealthCheckResult)
    → IsSummary s
    → IsSummary (on_result cfg s r)
unfolding on_result failing_run last_known_healthy
on_result-IsSummary cfg s r i = ground (arith, length-append s.failure_ch (r ∷ []))

-- Whatever the results are, after any number of ticks from a summarising state (a fresh check is
-- one) the failure count is the length of the failing run that ends the stored history, the health
-- flag is that of the last known result, and the channel holds no more than its size.
pub run_check-IsSummary :
    (cfg : HealthCheckConfig) (s : CheckState) (rs : List HealthCheckResult)
    → IsSummary s
    → IsSummary (run_check cfg s rs)
unfolding run_check
run_check-IsSummary cfg s [] i = i
run_check-IsSummary cfg s (r ∷ rs) i =
    run_check-IsSummary cfg (on_result cfg s r) rs (on_result-IsSummary cfg s r i)

-- A tick sends to the failure channel exactly when its result is unhealthy, the failing run with it
-- has reached the retries (3 where none are configured), and the channel has room.
pub on_result_reports :
    (cfg : HealthCheckConfig) (s : CheckState) (r : HealthCheckResult)
    → IsSummary s
    → ((on_result cfg s r).failure_ch ≡ s.failure_ch ++ r ∷ [])
        × (r.status ≡ unhealthy)
        × (effective_retries cfg ≤ℤ pos (failing_run (r ∷ s.stored)))
        × (length s.failure_ch < channel_size)
      ⊎ ((on_result cfg s r).failure_ch ≡ s.failure_ch)
        × ((r.status ≢ unhealthy)
            ⊎ (pos (failing_run (r ∷ s.stored)) <ℤ effective_retries cfg)
            ⊎ (channel_size ≤ length s.failure_ch))
unfolding on_result failing_run
on_result_reports cfg s r i = ground (arith, i.counted)
