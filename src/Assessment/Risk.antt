-- ===== src/Assessment/Risk.antt =====
-- `RiskAssessmentService` of fakedetector/lifecycle/_assessment.py: the validated findings, their
-- provenance, the choice of the model, and the score, the levels and the override of a model that is
-- not the ensemble.
use fakedetector.Prelude.{
  ℕ, String, Bool, true, false, ◌&&◌, ◌||◌, not, Option, none, some, List, [], ◌∷◌, map, ◌==◌, leb,
  str_eq, contains, Result, ok, err, value_error, analysis_assessment, ◌>>=◌, ◌>>◌, guard,
  if◌then◌else◌,
}
use fakedetector.Domain.{
  AnalyzerResult, AnalyzerStatus, CompletenessStatus, Finding, FindingSeverity, RiskLevel,
  is_analyzer_status,
}
use fakedetector.Assessment.Completeness.{
  Floats, AnalysisCompleteness, are_unique, any_of, is_blank, ids, same_texts, validated_results,
  build_completeness,
}
use fakedetector.Assessment.Scoring.{
  SeverityScores, ScoringBucket, build_scoring_buckets, id_at_most, sorted, text_at_most, total,
}

-- The model's id and the members of RiskThresholds, SeverityScores and CriticalOverrideConfig.
pub record RiskConfig : Type 0 where
  pub model_id : String
  pub low_max : ℕ
  pub medium_max : ℕ
  pub severity_scores : SeverityScores
  pub override_enabled : Bool
  pub allowed_finding_types : List String

pub record TrustedCriticalRule : Type 0 where
  pub finding_type : String
  pub source_analyzer_id : String
  pub source_analyzer_version : String

abbrev same_rule : TrustedCriticalRule → TrustedCriticalRule → Bool
same_rule a b =
    str_eq a.finding_type b.finding_type
    && str_eq a.source_analyzer_id b.source_analyzer_id
    && str_eq a.source_analyzer_version b.source_analyzer_version

-- The score of an assessment: the sum of the contributions, or the float of the ensemble, which is
-- only passed on and is known by a number here.
pub data Score : Type 0 where
  points : ℕ → Score
  measured : ℕ → Score

-- The fields of RiskAssessment but for the model's name and the texts; the probability is None.
pub record RiskAssessment : Type 0 where
  pub score : Option Score
  pub score_based_level : Option RiskLevel
  pub critical_override_applied : Bool
  pub critical_finding_ids : List String
  pub final_level : Option RiskLevel

abbrev unnamed_finding : Finding → Bool
unnamed_finding f =
    is_blank f.finding_id
    || is_blank f.finding_type
    || is_blank f.source_analyzer_id
    || is_blank f.source_analyzer_version

abbrev blank_correlation : Finding → Bool
blank_correlation f = elim (f.correlation_group) [ none ↦ false | some group ↦ is_blank group ]

abbrev pub finding_ids : List Finding → List String
finding_ids = map (λ f. f.finding_id)

unfoldable pub validated_findings : List Finding → Result (List Finding)
validated_findings fs = do
  guard (not (any_of (λ f. unnamed_finding f || blank_correlation f) fs)) value_error
  guard (are_unique (finding_ids fs)) value_error
  ok (sorted id_at_most fs)

-- {result.analyzer_id: result for result in results}.get(id): the last one
unfoldable pub result_by_id : String → List AnalyzerResult → Option AnalyzerResult
result_by_id id [] = none
result_by_id id (r ∷ rs) = elim (result_by_id id rs) [
  | some later ↦ some later
  | none ↦ if str_eq r.analyzer_id id then some r else none
]

unfoldable pub is_source : AnalyzerResult → Finding → Bool
is_source source f =
    str_eq source.analyzer_version f.source_analyzer_version
    && str_eq source.group f.group
    && is_analyzer_status source.status AnalyzerStatus.completed
    && source.applicable

unfoldable pub has_provenance : List AnalyzerResult → Finding → Bool
has_provenance results f = elim (result_by_id f.source_analyzer_id results) [
  | none ↦ false
  | some source ↦ is_source source f
]

abbrev pub validate_finding_provenance : List AnalyzerResult → List Finding → Result (Unit {0})
validate_finding_provenance results fs =
    guard (not (any_of (λ f. not (has_provenance results f)) fs)) value_error

abbrev pub same_completeness_status : CompletenessStatus → CompletenessStatus → Bool
same_completeness_status CompletenessStatus.complete CompletenessStatus.complete = true
same_completeness_status CompletenessStatus.partial CompletenessStatus.partial = true
same_completeness_status CompletenessStatus.insufficient CompletenessStatus.insufficient = true
same_completeness_status CompletenessStatus.not_assessed CompletenessStatus.not_assessed = true
same_completeness_status _ _ = false

-- equality of model_dump(exclude={"explanation"})
unfoldable pub same_completeness :
    (fl : Floats) → AnalysisCompleteness fl → AnalysisCompleteness fl → Bool
same_completeness fl a b =
    same_completeness_status a.status b.status
    && (a.planned_analyzers == b.planned_analyzers)
    && (a.applicable_analyzers == b.applicable_analyzers)
    && (a.completed_analyzers == b.completed_analyzers)
    && (a.failed_analyzers == b.failed_analyzers)
    && (a.timed_out_analyzers == b.timed_out_analyzers)
    && (a.skipped_analyzers == b.skipped_analyzers)
    && (a.not_applicable_analyzers == b.not_applicable_analyzers)
    && Floats.equal fl a.coverage_ratio b.coverage_ratio
    && same_texts a.missing_capabilities b.missing_capabilities

abbrev pub is_insufficient_status : CompletenessStatus → Bool
is_insufficient_status CompletenessStatus.insufficient = true
is_insufficient_status _ = false

abbrev is_assessable : CompletenessStatus → Bool
is_assessable CompletenessStatus.complete = true
is_assessable CompletenessStatus.partial = true
is_assessable _ = false

abbrev is_critical : FindingSeverity → Bool
is_critical FindingSeverity.critical = true
is_critical _ = false

abbrev is_empty {ℓ} : {A : Type ℓ} → List A → Bool
is_empty [] = true
is_empty (x ∷ xs) = false

abbrev has_rule : List TrustedCriticalRule → TrustedCriticalRule → Bool
has_rule rules rule = any_of (same_rule rule) rules

-- validate_declared_assessment
abbrev pub validated_risk : RiskAssessment → Result RiskAssessment
validated_risk risk = do
  guard (not (risk.critical_override_applied && is_empty risk.critical_finding_ids)) value_error
  ok risk

module _ (config : RiskConfig) where
  unfoldable pub score_level : ℕ → RiskLevel
  score_level score =
      if leb score config.low_max
      then RiskLevel.low
      else if leb score config.medium_max
      then RiskLevel.medium
      else RiskLevel.high

module _ (config : RiskConfig) (rules : List TrustedCriticalRule) where
  abbrev pub qualifies : Finding → Bool
  qualifies f =
      contains config.allowed_finding_types f.finding_type
      && has_rule rules record {
        finding_type = f.finding_type;
        source_analyzer_id = f.source_analyzer_id;
        source_analyzer_version = f.source_analyzer_version;
      }
      && is_critical f.severity
      && f.critical_override_eligible

  unfoldable pub qualifying : List Finding → List String
  qualifying [] = []
  qualifying (f ∷ fs) = if qualifies f then f.finding_id ∷ qualifying fs else qualifying fs

  unfoldable pub qualifying_critical_finding_ids : CompletenessStatus → List Finding → List String
  qualifying_critical_finding_ids status fs =
      if is_insufficient_status status || not config.override_enabled
      then []
      else sorted text_at_most (qualifying fs)

  unfoldable pub assessment :
      CompletenessStatus → List ScoringBucket → List String → Result RiskAssessment
  assessment status bs qualifying_ids =
      if is_assessable status
      then validated_risk record {
        score = some (points (total bs));
        score_based_level = some (score_level config (total bs));
        critical_override_applied = not (is_empty qualifying_ids);
        critical_finding_ids = qualifying_ids;
        final_level =
            some
              (if is_empty qualifying_ids then score_level config (total bs) else RiskLevel.high);
      }
      -- `_risk_summary` accepts no level for INSUFFICIENT alone
      else do
        guard (is_insufficient_status status) value_error
        validated_risk record {
          score = none;
          score_based_level = none;
          critical_override_applied = false;
          critical_finding_ids = [];
          final_level = none;
        }

-- `except ...: raise AnalysisAssessmentError(...)`
abbrev pub reraised {ℓ} : {A : Type ℓ} → Result A → Result A
reraised (ok a) = ok a
reraised (err e) = err analysis_assessment

-- What `_ensemble_assessment` does with the facts that `assess` has checked: any answer, or an error.
abbrev pub Ensemble : Floats → Type 0
Ensemble fl = AnalysisCompleteness fl → List AnalyzerResult → List Finding → Result RiskAssessment

-- self._config.model_id == "diploma_ensemble_v1"
abbrev pub is_ensemble : RiskConfig → Bool
is_ensemble config = str_eq config.model_id "diploma_ensemble_v1"

module _ (fl : Floats) (minimum : Floats.Float fl) (config : RiskConfig)
    (ensemble : Ensemble fl) where
  -- the assessment of a model other than the ensemble
  abbrev pub scored_risk :
      List TrustedCriticalRule → CompletenessStatus → List Finding → Result RiskAssessment
  scored_risk rules status findings = do
    scored ← build_scoring_buckets config.severity_scores findings
    assessment config rules status scored
        (qualifying_critical_finding_ids config rules status findings)

  unfoldable pub checked_risk :
      List TrustedCriticalRule
      → AnalysisCompleteness fl
      → List AnalyzerResult
      → List Finding
      → Result RiskAssessment
  checked_risk rules completeness analyzer_results findings = do
    results ← validated_results analyzer_results
    checked ← validated_findings findings
    guard (same_completeness fl completeness (build_completeness fl minimum (ids results) results))
        value_error
    validate_finding_provenance results checked
    let scored_one = scored_risk rules completeness.status checked in
        if is_ensemble config then ensemble completeness results checked else scored_one

  -- RiskAssessmentService.assess
  abbrev pub assess_risk :
      List TrustedCriticalRule
      → AnalysisCompleteness fl
      → List AnalyzerResult
      → List Finding
      → Result RiskAssessment
  assess_risk rules completeness analyzer_results findings =
      reraised (checked_risk rules completeness analyzer_results findings)
