-- ===== src/Lifecycle.antt =====
-- The managed lifecycle of an accepted analysis (fakedetector/lifecycle).
pub mod Task
pub mod Machine
pub mod Staging
pub mod Settlement
pub mod Consistency
pub mod Registry
pub mod Scheduler
pub mod Queue
pub mod Receiver
pub mod Cleanup
