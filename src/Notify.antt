-- ===== src/Notify.antt =====
-- internal/notify: which events go out to the notification channels, and what is sent.
pub mod Markdown
pub mod Channels
pub mod Dispatcher
pub mod Mail
pub mod Sending
pub mod Delivered
pub mod Cooldown
