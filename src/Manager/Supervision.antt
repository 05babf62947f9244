-- ===== src/Manager/Supervision.antt =====
-- Which monitorService goroutines of internal/manager/manager.go watch a service: an abstract
-- machine of the stop channels, and the refinement of the operations to it.
pub mod Machine
pub mod Steps
pub mod Quiet
pub mod Starting
pub mod Stopping
pub mod Restarting
pub mod Rounds
pub mod Refinement
pub use Machine.{View, Move, IsSupervised}
pub use Steps.{Step, Reach, view}
