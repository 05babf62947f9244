-- ===== src/Health/Checkers.antt =====
-- internal/health: the checkers of one health check, and the Runner's choice among them.
pub mod Defs
pub mod Script
pub mod Network
pub mod Passes
