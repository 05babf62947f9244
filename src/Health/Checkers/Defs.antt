-- ===== src/Health/Checkers/Defs.antt =====
-- What the checkers of internal/health share: the functions of Go's strings and fmt that they call, as
-- parameters, and their results.
use elnssm.Common.{ℕ, ℤ, pos, leb, String, Bool, if◌then◌else◌}
use Prim.Native.String as Text
use elnssm.Model.{HealthStatus, healthy, unhealthy, HealthCheckResult}

pub record CheckTexts : Type 0 where
  pub contains : String → String → Bool
  pub to_lower : String → String
  pub trim_space : String → String
  pub is_cmdlet : String → Bool  -- cmdletRe.MatchString
  pub quote : String → String  -- %q
  pub decimal : ℤ → String  -- %d
  pub byte_length : String → ℕ  -- len(s)
  pub byte_prefix : String → ℕ → String  -- s[:n]

-- truncate of script_check.go
unfoldable pub truncate : CheckTexts → String → ℕ → String
truncate t s max_len =
    if leb (t.byte_length s) max_len then s else Text.◌++◌ (t.byte_prefix s max_len) "..."

-- A result without a status code.
abbrev pub result : String → ℕ → HealthStatus → String → HealthCheckResult
result type start status message = record {
  check_type = type;
  status = status;
  timestamp = start;
  message = message;
  status_code = pos 0;
}

abbrev pub fails : String → ℕ → String → HealthCheckResult
fails type start message = result type start unhealthy message

abbrev pub passes : String → ℕ → String → HealthCheckResult
passes type start message = result type start healthy message
