-- ===== src/Assessment/Recommendation.antt =====
-- `RecommendationService` and `AnalysisAssessmentService` of
-- fakedetector/lifecycle/_assessment.py.
use fakedetector.Prelude.{
  Bool, true, false, ◌&&◌, Option, none, some, List, [], ◌∷◌, String, is_some, is_none, Result, ok,
  err, value_error, key_error, ◌>>=◌, ◌>>◌, guard,
}
use fakedetector.Domain.{AnalyzerResult, CompletenessStatus, Finding, RiskLevel}
use fakedetector.Assessment.Completeness.{Floats, AnalysisCompleteness, assess_completeness}
use fakedetector.Assessment.Risk.{
  RiskAssessment, RiskConfig, Ensemble, TrustedCriticalRule, assess_risk, reraised, validated_risk,
}

-- The actions of `_RecommendationAction` that the table uses.
pub data Action : Type 0 where
  no_additional_action manual_review verify_source_via_independent_channel : Action
  retry_analysis escalate_to_security send_to_incident_response : Action

-- Recommendation without its text
pub record Recommendation : Type 0 where
  pub primary_action : Action
  pub additional_actions : List Action
  pub requires_manual_review : Bool

abbrev advice : Action → List Action → Bool → Recommendation
advice primary additional manual = record {
  primary_action = primary;
  additional_actions = additional;
  requires_manual_review = manual;
}

-- _RECOMMENDATIONS
unfoldable pub recommendations : CompletenessStatus → Option RiskLevel → Option Recommendation
recommendations CompletenessStatus.complete (some RiskLevel.low) =
    some (advice no_additional_action [] false)
recommendations CompletenessStatus.complete (some RiskLevel.medium) =
    some (advice manual_review (verify_source_via_independent_channel ∷ []) true)
recommendations CompletenessStatus.complete (some RiskLevel.high) = some (
    advice escalate_to_security
      (manual_review ∷ verify_source_via_independent_channel ∷ send_to_incident_response ∷ []) true)
recommendations CompletenessStatus.partial (some RiskLevel.low) =
    some (advice manual_review (retry_analysis ∷ []) true)
recommendations CompletenessStatus.partial (some RiskLevel.medium) =
    some (advice manual_review (verify_source_via_independent_channel ∷ retry_analysis ∷ []) true)
recommendations CompletenessStatus.partial (some RiskLevel.high) = some (
    advice escalate_to_security
      (manual_review ∷ verify_source_via_independent_channel ∷ retry_analysis ∷ []) true)
recommendations CompletenessStatus.insufficient none =
    some (advice manual_review (retry_analysis ∷ []) true)
recommendations _ _ = none

-- recommendations[key]
abbrev looked_up : Option Recommendation → Result Recommendation
looked_up none = err key_error
looked_up (some r) = ok r

abbrev levels_fit : CompletenessStatus → RiskAssessment → Bool
levels_fit CompletenessStatus.insufficient risk =
    is_none risk.score && is_none risk.score_based_level
levels_fit _ risk = is_some risk.final_level

-- RecommendationService.recommend
unfoldable pub recommend : CompletenessStatus → RiskAssessment → Result Recommendation
recommend status risk_assessment = reraised (do
  risk ← validated_risk risk_assessment
  recommendation ← looked_up (recommendations status risk.final_level)
  guard (levels_fit status risk) value_error
  ok recommendation)

abbrev pub production_rules : List TrustedCriticalRule
production_rules = []

-- AnalysisAssessmentService.assess
unfoldable pub assess :
    (fl : Floats)
    → Floats.Float fl
    → RiskConfig
    → Ensemble fl
    → List String
    → List AnalyzerResult
    → List Finding
    → Result (AnalysisCompleteness fl × RiskAssessment × Recommendation)
assess fl minimum config ensemble plan results findings = do
  completeness ← assess_completeness fl minimum plan results
  risk ← assess_risk fl minimum config ensemble production_rules completeness results findings
  recommendation ← recommend completeness.status risk
  ok (completeness, risk, recommendation)
