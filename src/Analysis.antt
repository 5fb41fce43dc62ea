-- ===== src/Analysis.antt =====
-- The analyzers of an analysis (fakedetector/analyzers): their plan and its execution.
pub mod Registry
pub mod Orchestrator
pub mod Execution
