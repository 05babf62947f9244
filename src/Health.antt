-- ===== src/Health.antt =====
-- internal/health: the checks' runner and the ring buffer of results.
pub mod RingBuffer
pub mod Runner
pub mod Checkers
