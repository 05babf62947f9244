-- ===== src/Manager/Start.antt =====
-- internal/manager/manager.go: startService. What other goroutines and the operating system do is a
-- `StartWorld`; `interfere` is what happens to the service while the lock is released.
pub mod Attach
pub mod Defs
pub use Attach.{now_running}
pub use Defs.{Error, already_running, dependency_wait, pre_start_hook, start_process, StartWorld}
unfoldable pub use Attach.{attach}
unfoldable pub use Defs.{
  default_working_dir, spawn_service, launch_service, after_wait, start_service, post_start_done,
}
