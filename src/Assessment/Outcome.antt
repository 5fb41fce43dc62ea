-- ===== src/Assessment/Outcome.antt =====
-- When the assessment of a task succeeds, and what it then says.
use fakedetector.Prelude.{
  is_none, bind-ok, then-ok, ℕ, String, Bool, true, false, ◌&&◌, not, Option, none, some, List, [],
  ◌∷◌, ◌≡◌, ◌≢◌, refl, arith, length, Result, if◌then◌else◌, ok, value_error, guard, ltb, eq_iff,
  inl, inr, Bool-cases,
}
use fakedetector.Domain.{AnalyzerResult, CompletenessStatus, Finding, RiskLevel}
use fakedetector.Assessment.Completeness.{
  Floats, AnalysisCompleteness, ids, same_texts, validated_plan, validated_results, status_of,
  build_completeness, assess_completeness, coverage,
}
use fakedetector.Assessment.Counts.{length-same, validated_plan_inv}
use fakedetector.Assessment.Scoring.{ScoringBucket, build_scoring_buckets, total, sorted}
use fakedetector.Assessment.Marginal.{buckets_built}
use fakedetector.Assessment.Risk.{
  RiskAssessment, RiskConfig, Score, points, measured, Ensemble, is_ensemble, scored_risk,
  qualifying, qualifying_critical_finding_ids, score_level, assessment, checked_risk,
  same_completeness, same_completeness_status, is_insufficient_status, validated_findings,
  validate_finding_provenance,
}
use fakedetector.Assessment.Recommendation.{
  Recommendation, recommendations, recommend, assess, production_rules,
}

-- `str` equality of a tuple with itself
same_texts_refl : (xs : List String) → same_texts xs xs ≡ true
unfolding same_texts
same_texts_refl [] = refl
same_texts_refl (x ∷ xs) = ground (arith, (eq_iff x x).1 refl, same_texts_refl xs)

same_status_refl : (s : CompletenessStatus) → same_completeness_status s s ≡ true
same_status_refl CompletenessStatus.complete = refl
same_status_refl CompletenessStatus.partial = refl
same_status_refl CompletenessStatus.insufficient = refl
same_status_refl CompletenessStatus.not_assessed = refl

length-ids : (rs : List AnalyzerResult) → length (ids rs) ≡ length rs
length-ids [] = refl
length-ids (r ∷ rs) = omega (arith, length-ids rs)

abbrev is_complete : CompletenessStatus → Bool
is_complete CompletenessStatus.complete = true
is_complete _ = false

abbrev is_low : Option RiskLevel → Bool
is_low (some RiskLevel.low) = true
is_low _ = false

-- A manual review is left out for a complete analysis of low risk alone.
abbrev pub IsAdvised : CompletenessStatus → Option RiskLevel → Recommendation → Type 0
IsAdvised status level advised =
    advised.requires_manual_review ≡ not (is_complete status && is_low level)

recommendations-IsAdvised :
    (status : CompletenessStatus) (level : Option RiskLevel) (advised : Recommendation)
    → recommendations status level ≡ some advised
    → IsAdvised status level advised
unfolding recommendations
recommendations-IsAdvised CompletenessStatus.complete (some RiskLevel.low) a e = ground arith
recommendations-IsAdvised CompletenessStatus.complete (some RiskLevel.medium) a e = ground arith
recommendations-IsAdvised CompletenessStatus.complete (some RiskLevel.high) a e = ground arith
recommendations-IsAdvised CompletenessStatus.complete none a e = cc
recommendations-IsAdvised CompletenessStatus.partial (some RiskLevel.low) a e = ground arith
recommendations-IsAdvised CompletenessStatus.partial (some RiskLevel.medium) a e = ground arith
recommendations-IsAdvised CompletenessStatus.partial (some RiskLevel.high) a e = ground arith
recommendations-IsAdvised CompletenessStatus.partial none a e = cc
recommendations-IsAdvised CompletenessStatus.insufficient none a e = ground arith
recommendations-IsAdvised CompletenessStatus.insufficient (some l) a e = cc
recommendations-IsAdvised CompletenessStatus.not_assessed level a e = cc

recommend-IsAdvised :
    (status : CompletenessStatus) (risk : RiskAssessment) (advised : Recommendation)
    → recommend status risk ≡ ok advised
    → IsAdvised status risk.final_level advised
unfolding recommend
recommend-IsAdvised status risk advised e =
    recommendations-IsAdvised status risk.final_level advised (ground arith)

complete_advised :
    (level : RiskLevel)
    → (a : Recommendation) × (recommendations CompletenessStatus.complete (some level) ≡ some a)
unfolding recommendations
complete_advised RiskLevel.low = (_, refl)
complete_advised RiskLevel.medium = (_, refl)
complete_advised RiskLevel.high = (_, refl)

partial_advised :
    (level : RiskLevel)
    → (a : Recommendation) × (recommendations CompletenessStatus.partial (some level) ≡ some a)
unfolding recommendations
partial_advised RiskLevel.low = (_, refl)
partial_advised RiskLevel.medium = (_, refl)
partial_advised RiskLevel.high = (_, refl)

module _ (config : RiskConfig) where
  qualifying-production : (fs : List Finding) → qualifying config production_rules fs ≡ []
  unfolding qualifying
  qualifying-production [] = refl
  qualifying-production (f ∷ fs) = ground (arith, qualifying-production fs)

  no_override :
      (status : CompletenessStatus) (fs : List Finding)
      → qualifying_critical_finding_ids config production_rules status fs ≡ []
  unfolding qualifying_critical_finding_ids sorted
  no_override status fs = rw (qualifying-production fs) (ground arith)

  module _ (fl : Floats) (minimum : Floats.Float fl) (ensemble : Ensemble fl)
      (other_model : is_ensemble config ≡ false) where
    abbrev pub level_of : Option Score → Option RiskLevel
    level_of none = none
    level_of (some (points n)) = some (score_level config n)
    level_of (some (measured x)) = none

    -- What a risk assessment says for a completeness status.
    abbrev pub IsOutcome : CompletenessStatus → RiskAssessment → Type 0
    IsOutcome status r =
        (r.critical_override_applied ≡ false)
        × (r.final_level ≡ r.score_based_level)
        × (r.score_based_level ≡ level_of r.score)
        × (is_none r.score ≡ is_insufficient_status status)

    assessment-IsOutcome :
        (status : CompletenessStatus) (bs : List ScoringBucket) (r : RiskAssessment)
        → assessment config production_rules status bs [] ≡ ok r
        → IsOutcome status r
    unfolding assessment
    assessment-IsOutcome CompletenessStatus.complete bs r e = ground arith
    assessment-IsOutcome CompletenessStatus.partial bs r e = ground arith
    assessment-IsOutcome CompletenessStatus.insufficient bs r e = ground arith
    assessment-IsOutcome CompletenessStatus.not_assessed bs r e = cc

    advice_given :
        (status : CompletenessStatus) (bs : List ScoringBucket)
        → status ≢ CompletenessStatus.not_assessed
        → (r : RiskAssessment) × (a : Recommendation) × (assessment config production_rules status
              bs []
            ≡ ok r)
          × (recommend status r ≡ ok a)
    unfolding assessment recommend recommendations
    advice_given CompletenessStatus.complete bs n =
        let (a, e) = complete_advised (score_level config (total bs)) in (_, a, refl, rw e refl)
    advice_given CompletenessStatus.partial bs n =
        let (a, e) = partial_advised (score_level config (total bs)) in (_, a, refl, rw e refl)
    advice_given CompletenessStatus.insufficient bs n = (_, _, refl, refl)
    advice_given CompletenessStatus.not_assessed bs n = elim (n refl) [ ]

    status_of-assessed :
        (planned applicable completed failed timed_out skipped : ℕ)
        → status_of fl minimum planned applicable completed failed timed_out skipped
          ≢ CompletenessStatus.not_assessed
    unfolding status_of
    status_of-assessed planned applicable completed failed timed_out skipped e = ground arith

    -- The ensemble is not asked.
    scored_alone :
        (c : AnalysisCompleteness fl) (rs : List AnalyzerResult) (fs : List Finding)
        {r : Result RiskAssessment}
        → (if is_ensemble config
            then ensemble c rs fs
            else scored_risk fl minimum config ensemble production_rules c.status fs)
          ≡ r
        → scored_risk fl minimum config ensemble production_rules c.status fs ≡ r
    scored_alone c rs fs e = rw other_model at e

    checked_risk_inv :
        (c : AnalysisCompleteness fl) (rs : List AnalyzerResult) (fs : List Finding)
        (r : RiskAssessment)
        → checked_risk fl minimum config ensemble production_rules c rs fs ≡ ok r
        → (bs : List ScoringBucket) × (checked : List Finding) × (assessment config production_rules
              c.status bs
              (qualifying_critical_finding_ids config production_rules c.status checked)
            ≡ ok r)
    unfolding checked_risk
    checked_risk_inv c rs fs r e =
        let (results, _, e) = bind-ok (validated_results rs) _ e in
        let (checked, _, e) = bind-ok (validated_findings fs) _ e in
        let (_, e) = then-ok (guard _ value_error) _ e in
        let (_, e) = then-ok (validate_finding_provenance results checked) _ e in
        let (bs, _, e) =
          bind-ok (build_scoring_buckets config.severity_scores checked) _
            (scored_alone c results checked e) in
        (bs, checked, e)

    assess_parts :
        (plan : List String) (rs : List AnalyzerResult) (fs : List Finding)
        (c : AnalysisCompleteness fl) (r : RiskAssessment) (a : Recommendation)
        → assess fl minimum config ensemble plan rs fs ≡ ok (c, r, a)
        → (assess_completeness fl minimum plan rs ≡ ok c)
          × (checked_risk fl minimum config ensemble production_rules c rs fs ≡ ok r)
          × (recommend c.status r ≡ ok a)
    unfolding assess
    assess_parts plan rs fs c r a e = ground arith

    -- Of an assessment that returns, under a configured model other than the ensemble
    -- diploma_ensemble_v1: no critical override is ever applied, the final level is the
    -- one of the score by the thresholds, there is no score exactly where the completeness is
    -- INSUFFICIENT, and a manual review is required except for a COMPLETE analysis of LOW risk.
    pub assess-IsOutcome :
        (plan : List String) (rs : List AnalyzerResult) (fs : List Finding)
        (c : AnalysisCompleteness fl) (r : RiskAssessment) (a : Recommendation)
        → assess fl minimum config ensemble plan rs fs ≡ ok (c, r, a)
        → IsOutcome c.status r × IsAdvised c.status r.final_level a
    assess-IsOutcome plan rs fs c r a e =
        let (planned, risk, advised) = assess_parts plan rs fs c r a e in
        let (bs, checked, e) = checked_risk_inv c rs fs r risk in
        (
          assessment-IsOutcome c.status bs r (rw (no_override c.status checked) at e),
          recommend-IsAdvised c.status r a advised,
        )

    built-assessed :
        (plan : List String) (rs : List AnalyzerResult)
        → AnalysisCompleteness.status (build_completeness fl minimum plan rs)
          ≢ CompletenessStatus.not_assessed
    unfolding build_completeness
    built-assessed plan rs = status_of-assessed _ _ _ _ _ _

    planned-results :
        (plan : List String) (rs : List AnalyzerResult)
        → validated_plan plan rs ≡ ok rs
        → validated_results rs ≡ ok rs
    unfolding validated_plan
    planned-results plan rs e = ground arith

    planned-built :
        (plan : List String) (rs : List AnalyzerResult)
        → validated_plan plan rs ≡ ok rs
        → assess_completeness fl minimum plan rs ≡ ok (build_completeness fl minimum plan rs)
    unfolding assess_completeness
    planned-built plan rs e = rw (e, assess_completeness) refl

    module _
        (equal-quotient : (n m : ℕ)
          → Floats.equal fl (Floats.quotient fl n m) (Floats.quotient fl n m) ≡ true)
        (equal-zero : Floats.equal fl (Floats.zero fl) (Floats.zero fl) ≡ true) where
      coverage-equal :
          (completed applicable : ℕ)
          → Floats.equal fl
              (coverage fl minimum completed applicable)
              (coverage fl minimum completed applicable)
            ≡ true
      coverage-equal completed applicable = elim (Bool-cases (ltb 0 applicable)) [
        | inl t ↦ rw t (equal-quotient completed applicable)
        | inr f ↦ rw f equal-zero
      ]

      same_completeness_refl :
          (c : AnalysisCompleteness fl)
          → Floats.equal fl c.coverage_ratio c.coverage_ratio ≡ true
          → same_completeness fl c c ≡ true
      unfolding same_completeness
      same_completeness_refl c e =
          rw (same_status_refl c.status) (ground (arith, e, same_texts_refl c.missing_capabilities))

      built-same :
          (plan : List String) (rs : List AnalyzerResult)
          → length plan ≡ length rs
          → same_completeness fl
              (build_completeness fl minimum plan rs)
              (build_completeness fl minimum (ids rs) rs)
            ≡ true
      unfolding build_completeness
      built-same plan rs same =
          rw (length-ids rs) (rw same (same_completeness_refl _ (coverage-equal _ _)))

      -- the outcome of the chain after each of its parts
      checked_risk-succeeds :
          (c : AnalysisCompleteness fl) (rs : List AnalyzerResult) (fs checked : List Finding)
          (bs : List ScoringBucket) (r : RiskAssessment)
          → validated_results rs ≡ ok rs
          → validated_findings fs ≡ ok checked
          → same_completeness fl c (build_completeness fl minimum (ids rs) rs) ≡ true
          → validate_finding_provenance rs checked ≡ ok tt
          → build_scoring_buckets config.severity_scores checked ≡ ok bs
          → assessment config production_rules c.status bs [] ≡ ok r
          → checked_risk fl minimum config ensemble production_rules c rs fs ≡ ok r
      unfolding checked_risk
      checked_risk-succeeds c rs fs checked bs r results findings same provenance built e =
          rw results (
            rw findings (
              rw same
                (rw provenance (rw other_model (rw built (rw (no_override c.status checked) e))))))

      -- Where a quotient of counts and 0.0 equal themselves and the configured model is not the ensemble
      -- diploma_ensemble_v1, the assessment returns for every plan and
      -- results that fit each other and all valid findings whose provenance is a completed result:
      -- its three services never reject what they pass to each other.
      pub assess_succeeds :
          (plan : List String) (rs : List AnalyzerResult) (fs checked : List Finding)
          → validated_plan plan rs ≡ ok rs
          → validated_findings fs ≡ ok checked
          → validate_finding_provenance rs checked ≡ ok tt
          → (c : AnalysisCompleteness fl) × (r : RiskAssessment) × (a : Recommendation) × (assess fl
                minimum config ensemble plan rs fs
              ≡ ok (c, r, a))
      unfolding assess
      assess_succeeds plan rs fs checked planned findings provenance =
          let c = build_completeness fl minimum plan rs in
          let (bs, built) = buckets_built config.severity_scores checked in
          let (r, a, e, advised) = advice_given c.status bs (built-assessed plan rs) in
          let (same, _) = validated_plan_inv plan rs rs planned in
          let risk =
            checked_risk-succeeds c rs fs checked bs r (planned-results plan rs planned) findings
              (built-same plan rs (length-same rs plan same)) provenance built e in
          (c, r, a, rw (planned-built plan rs planned) (rw risk (rw advised refl)))
