-- ===== src/Examples/Checks.antt =====
-- The theorems about health checks and their history on concrete results.
use elnssm.Common.{ℕ, ◌≡◌, pos, List, [], ◌∷◌, true, false, refl, arith}
use elnssm.Model.{HealthCheckConfig, HealthCheckResult, unhealthy}
use elnssm.Health.RingBuffer.{RingBuffer, new_ring_buffer, get_all}
use elnssm.Health.RingBuffer.History.{keep_last, add_all, get_all-add_all}
use elnssm.Health.Runner.Defs.{CheckState}
use elnssm.Health.Runner.Failures.{failing_run, last_known_healthy, IsSummary}

-- Two results from five: the buffer is full, and its oldest result is in the middle.
abbrev buffer : RingBuffer ℕ
buffer = record { results = 4 ∷ 2 ∷ 3 ∷ []; size = 3; pos = 1; full = true }

abbrev results : List ℕ
results = 1 ∷ 2 ∷ 3 ∷ 4 ∷ []

abbrev empty_buffer : RingBuffer ℕ
empty_buffer = new_ring_buffer 0 3

get_all-add_all_example : get_all (add_all empty_buffer results) ≡ keep_last 3 results
get_all-add_all_example = get_all-add_all 0 3 results (omega arith)

abbrev tcp : HealthCheckConfig
tcp = record {
  type = "tcp";
  target = "localhost:80";
  method = "";
  expect_status = pos 0;
  expect_body = "";
  send = "";
  expect_resp = "";
  script_body = "";
  interpreter = "";
  interval = pos 0;
  timeout = pos 0;
  retries = pos 2;
  start_delay = pos 0;
}

abbrev refused : HealthCheckResult
refused = record {
  check_type = "tcp";
  status = unhealthy;
  timestamp = 5;
  message = "refused";
  status_code = pos 0;
}

abbrev once_failed : CheckState
once_failed = record {
  consecutive_failures = 1;
  previous = unhealthy;
  last_healthy = false;
  failure_ch = [];
  stored = refused ∷ [];
}

once_failed-IsSummary : IsSummary once_failed
unfolding failing_run last_known_healthy
once_failed-IsSummary = record { counted = refl; flagged = refl; bounded = omega arith }
