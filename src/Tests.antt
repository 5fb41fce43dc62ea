-- ===== src/Tests.antt =====
-- Runs of the model on concrete inputs, and the theorems at concrete inputs.
mod Lifecycle
mod Clock
mod Assessment
mod Scheduler
mod Cleanup
mod Receiver
mod Preprocessing
mod Analysis
