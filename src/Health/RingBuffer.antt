-- ===== src/Health/RingBuffer.antt =====
-- internal/health/history.go: the last N results. The buffer is generic in what it holds.
pub mod Defs
pub mod History
pub use Defs.{RingBuffer}
unfoldable pub use Defs.{new_ring_buffer, add, get_all, latest}
