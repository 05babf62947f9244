-- ===== src/Config.antt =====
-- internal/config: the configuration of a service as it is loaded and saved, and the global
-- configuration's checks and secrets.
pub mod Yaml
pub mod Texts
pub mod ByteSize
pub mod Go
pub mod Load
pub mod Save
pub mod Reload
pub mod RoundTrip
pub mod Errors
pub mod Global
pub mod Validate
pub mod Secrets
pub mod Encryption
