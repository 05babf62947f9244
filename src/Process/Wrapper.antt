-- ===== src/Process/Wrapper.antt =====
-- internal/process/wrapper.go: the wrapper round one child process.
pub mod Defs
pub mod Control
pub mod Lifecycle
pub use Defs.{Job, ExitResult, Wrapper, Error, Launch}
pub use Control.{Signal, Waited, Shutdown, Stopped, Adoption, WaitError}
unfoldable pub use Defs.{new_wrapper, start, bad_pid}
unfoldable pub use Control.{stop, close, detach, adopt, classify_exit, child_exited, adopted_exited}
