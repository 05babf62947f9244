-- ===== src/Model.antt =====
-- internal/model: the domain types that the components share.
mod Enums
mod Config
mod Health
mod Events
pub use Enums.*
pub use Config.*
pub use Health.*
pub use Events.*
