-- ===== src/Api/Sessions.antt =====
-- internal/sspi/session.go: the handshake sessions of the connections.
pub mod Defs
pub mod Eviction
pub use Defs.{
  Bytes, SessionState, fresh, challenge, complete, Session, SessionStore, Sspi, Status,
  continue_needed, ok, unexpected, Accepted,
}
unfoldable pub use Defs.{
  get_or_create, get, remove, evict_stale, close, complete_session, put, is_complete,
}
