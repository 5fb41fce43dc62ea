-- ===== src/Preprocessing.antt =====
-- The demands, limits and budgets of the preprocessing (fakedetector/preprocessing and
-- fakedetector/_generated_artifact_budget.py).
pub mod Requirements
pub mod Sizes
pub mod Budget
pub mod Policy
pub mod Coordinates
pub mod Jpeg
