-- ===== src/Health/Runner.antt =====
-- internal/health/runner.go: the loop of one health check, with the runner's shared health flag.
pub mod Defs
pub mod Failures
pub mod Life
pub use Defs.{CheckState, fresh_check}
unfoldable pub use Defs.{effective_retries, on_result, run_check}
