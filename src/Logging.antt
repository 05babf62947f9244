-- ===== src/Logging.antt =====
-- internal/logging: the hub of the WebSocket log viewers, and the capture of a service's output.
pub mod Streamer
pub mod Capture
pub mod Files
