-- ===== src/Process.antt =====
-- internal/process: child processes.
pub mod Wrapper
pub mod ResourceMonitor
pub mod TempScript
pub mod Hooks
pub mod Removed
pub mod Filetime
pub mod HostMonitor
pub mod Environment
pub mod Credential
pub mod Logon
