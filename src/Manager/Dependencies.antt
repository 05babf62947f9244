-- ===== src/Manager/Dependencies.antt =====
-- internal/manager/dependencies.go: the start order of the services, and the wait for a dependency.
pub mod Defs
pub mod Release
pub mod Order
pub mod Sort
pub mod Result
pub mod Wait
