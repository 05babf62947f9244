-- ===== src/Model/Health.antt =====
-- internal/model/health.go: the outcome of one health check.
use elnssm.Common.{ℕ, ℤ, String}
use elnssm.Model.Enums.{HealthStatus}

pub record HealthCheckResult : Type 0 where
  pub check_type : String
  pub status : HealthStatus
  pub timestamp : ℕ
  pub message : String
  pub status_code : ℤ
