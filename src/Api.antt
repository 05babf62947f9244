-- ===== src/Api.antt =====
-- internal/api and internal/sspi: what stands in front of the API's handlers.
pub mod RateLimiter
pub mod Sessions
pub mod Auth
pub mod UpdateConfig
pub mod Services
pub mod Logs
pub mod Server
pub mod ConfigView
pub mod Listing
pub mod Control
pub mod Readings
pub mod Nodes
