-- ===== src/Tests/Assessment.antt =====
-- The assessment policy (fakedetector/lifecycle/_assessment.py) on an audio task with two analyzers
-- and three findings, two of them in one correlation group.
use fakedetector.Prelude.{
  ℕ, ◌+◌, ◌-◌, ◌*◌, ◌/◌, ◌<◌, ◌≡◌, refl, ◌⊎◌, String, true, false, some, List, [], ◌∷◌, ◌++◌, ◌==◌,
  ltb, ok, err, value_error, arith, All, length,
}
use fakedetector.Domain.{
  AnalyzerResult, AnalyzerStatus, CompletenessStatus, Finding, FindingSeverity, RiskLevel, audio,
}
use fakedetector.Assessment.Completeness.{
  Floats, AnalysisCompleteness, assess_completeness, validated_plan, is_blank, are_unique,
  same_texts, build_completeness, is_insufficient, count_status, missing,
}
use fakedetector.Assessment.Counts.{
  IsSettled, completeness_counters, completeness_complete, completeness_settled,
}
use fakedetector.Assessment.Scoring.{
  SeverityScores, ScoringBucket, build_scoring_buckets, total, group_key, sorted, insert,
  group_from, add_member, buckets, bucket, least, precedes, severity_contribution,
}
use fakedetector.Assessment.Marginal.{peak, score_marginal}
use fakedetector.Assessment.Risk.{
  RiskAssessment, RiskConfig, Ensemble, points, validated_findings, score_level, checked_risk,
  assessment, has_provenance, result_by_id, is_source, same_completeness,
  qualifying_critical_finding_ids,
}
use fakedetector.Assessment.Recommendation.{
  Recommendation, assess, recommend, recommendations, no_additional_action,
}
use fakedetector.Assessment.Outcome.{IsOutcome, IsAdvised, assess-IsOutcome, assess_succeeds}

-- thousandths
abbrev thousandths : Floats
thousandths = record {
  Float = ℕ;
  zero = 0;
  quotient = λ n m. n * 1000 / m;
  less = ltb;
  equal = λ a b. a == b;
}

abbrev scores : SeverityScores
scores = record { weak = 5; significant = 25; critical = 25 }

abbrev config : RiskConfig
config = record {
  model_id = "score_model_v1";
  low_max = 5;
  medium_max = 29;
  severity_scores = scores;
  override_enabled = false;
  allowed_finding_types = [];
}

abbrev result : String → AnalyzerStatus → AnalyzerResult
result id status = record {
  analyzer_id = id;
  analyzer_version = "1.0.0";
  media_type = audio;
  group = "audio";
  status = status;
  applicable = true;
}

abbrev plan : List String
plan = "audio_pcm_quality" ∷ "audio_metadata" ∷ []

abbrev results : List AnalyzerResult
results =
    result "audio_pcm_quality" AnalyzerStatus.completed
    ∷ result "audio_metadata" AnalyzerStatus.not_applicable
    ∷ []

abbrev found : String → FindingSeverity → Finding
found id severity = record {
  finding_id = id;
  group = "audio";
  finding_type = "clipping";
  severity = severity;
  source_analyzer_id = "audio_pcm_quality";
  source_analyzer_version = "1.0.0";
  critical_override_eligible = false;
  correlation_group = some "clipping";
}

abbrev findings : List Finding
findings = found "f2" FindingSeverity.weak ∷ found "f1" FindingSeverity.weak ∷ []

abbrev sorted_findings : List Finding
sorted_findings = found "f1" FindingSeverity.weak ∷ found "f2" FindingSeverity.weak ∷ []

abbrev completeness : AnalysisCompleteness thousandths
completeness = record {
  status = CompletenessStatus.complete;
  planned_analyzers = 2;
  applicable_analyzers = 1;
  completed_analyzers = 1;
  failed_analyzers = 0;
  timed_out_analyzers = 0;
  skipped_analyzers = 0;
  not_applicable_analyzers = 1;
  coverage_ratio = 1000;
  missing_capabilities = "audio_metadata" ∷ [];
}

same : (n : ℕ) → (n == n) ≡ true
same n = ground arith

valid_plan : validated_plan plan results ≡ ok results
unfolding validated_plan is_blank are_unique same_texts
valid_plan = refl

valid_findings : validated_findings findings ≡ ok sorted_findings
unfolding validated_findings is_blank are_unique sorted insert
valid_findings = refl

assessed : assess_completeness thousandths 500 plan results ≡ ok completeness
unfolding assess_completeness validated_plan is_blank are_unique same_texts build_completeness
    is_insufficient count_status missing
assessed = refl

completeness_counters_example : (2 ≡ 1 + 0 + 0 + 0 + 1) × (1 + 1 ≡ 2) × (2 ≡ length results)
completeness_counters_example =
    completeness_counters thousandths 500 plan results completeness assessed

completeness_complete_example : All IsSettled results × (0 < 1)
completeness_complete_example =
    completeness_complete thousandths 500 plan results completeness assessed refl

completeness_settled_example :
    (completeness.status ≡ CompletenessStatus.complete)
    ⊎ (completeness.status ≡ CompletenessStatus.insufficient)
completeness_settled_example =
    completeness_settled thousandths 500 plan results completeness assessed (refl, (refl, tt))

-- a significant finding that joins the group of two weak ones, sorted before them
abbrev joining : Finding
joining = found "f0" FindingSeverity.significant

score_marginal_example :
    (bs : List ScoringBucket) × (more : List ScoringBucket) × (build_scoring_buckets scores findings
      ≡ ok bs)
    × (build_scoring_buckets scores (findings ++ (joining ∷ [])) ≡ ok more)
    × (total more
        ≡ total bs
          + (severity_contribution scores joining - peak scores (group_key joining) findings))
score_marginal_example = score_marginal scores findings joining

abbrev unasked : Ensemble thousandths
unasked c rs fs = err value_error

abbrev risk : RiskAssessment
risk = record {
  score = some (points 5);
  score_based_level = some RiskLevel.low;
  critical_override_applied = false;
  critical_finding_ids = [];
  final_level = some RiskLevel.low;
}

abbrev advised : Recommendation
advised = record {
  primary_action = no_additional_action;
  additional_actions = [];
  requires_manual_review = false;
}

low : assess thousandths 500 config unasked plan results findings ≡ ok (completeness, risk, advised)
unfolding assess recommend recommendations checked_risk assessment score_level has_provenance
    result_by_id is_source same_completeness qualifying_critical_finding_ids validated_findings
    sorted insert group_from add_member buckets bucket least precedes severity_contribution total
    assess_completeness validated_plan is_blank are_unique same_texts build_completeness
    is_insufficient count_status missing
low = refl

assess-IsOutcome_example :
    IsOutcome config thousandths 500 unasked refl completeness.status risk
    × IsAdvised completeness.status risk.final_level advised
assess-IsOutcome_example =
    assess-IsOutcome config thousandths 500 unasked refl plan results findings completeness risk
      advised low

assess_succeeds_example :
    (c : AnalysisCompleteness thousandths) × (r : RiskAssessment) × (a : Recommendation) × (assess
        thousandths 500 config unasked plan results findings
      ≡ ok (c, r, a))
unfolding has_provenance result_by_id is_source
assess_succeeds_example =
    assess_succeeds config thousandths 500 unasked refl (λ n m. same (n * 1000 / m)) refl plan
      results findings sorted_findings valid_plan valid_findings refl
