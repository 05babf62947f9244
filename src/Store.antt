-- ===== src/Store.antt =====
-- internal/store: the buckets of the database, what is kept in them, and the queries of the event log.
pub mod Bolt
pub mod Services
pub mod History
pub mod Kept
pub mod Downsample
pub mod Events
