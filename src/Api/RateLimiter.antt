-- ===== src/Api/RateLimiter.antt =====
-- internal/api/ratelimit.go: the limiter of requests by client address.
pub mod Defs
pub mod Quota
pub use Defs.{Bucket, RateLimiter}
unfoldable pub use Defs.{allow, cleanup}
