-- ===== src/Logging/Streamer.antt =====
-- internal/logging/streamer.go: the hub, its clients and their goroutines.
pub mod Defs
pub mod Channels
pub mod Broadcast
pub mod Reached
pub mod Delivery
