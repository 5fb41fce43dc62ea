-- ===== src/Assessment.antt =====
-- The assessment policy of fakedetector/lifecycle/_assessment.py: completeness, the scored risk
-- and the recommendation. The ensemble model is not modelled, nor the texts.
pub mod Completeness
pub mod Scoring
pub mod Risk
pub mod Recommendation
pub mod Counts
pub mod Marginal
pub mod Outcome
