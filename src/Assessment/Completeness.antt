-- ===== src/Assessment/Completeness.antt =====
-- `CompletenessAssessmentService`, `_validated_results` and `_build_completeness` of
-- fakedetector/lifecycle/_assessment.py.
use Prim.Native.Char.{code}
use fakedetector.Prelude.{
  ℕ, suc, ◌-◌, String, Bool, true, false, ◌&&◌, ◌||◌, not, List, [], ◌∷◌, map, ◌==◌, leb, ltb,
  str_eq, contains, length, Result, ok, err, value_error, analysis_assessment, ◌>>=◌, ◌>>◌, guard,
  if◌then◌else◌,
}
use fakedetector.Domain.{AnalyzerResult, AnalyzerStatus, CompletenessStatus, is_analyzer_status}

-- Python's floats, as far as the policy computes with them: the quotient of two counts, `<` and `==`.
pub record Floats : Type 1 where
  pub Float : Type 0
  pub zero : Float
  pub quotient : ℕ → ℕ → Float
  pub less : Float → Float → Bool
  pub equal : Float → Float → Bool

-- str.isspace
abbrev is_space : ℕ → Bool
is_space c =
    (leb 9 c && leb c 13)
    || (leb 28 c && leb c 32)
    || (c == 133)
    || (c == 160)
    || (c == 5760)
    || (leb 8192 c && leb c 8202)
    || (c == 8232)
    || (c == 8233)
    || (c == 8239)
    || (c == 8287)
    || (c == 12288)

-- not s.strip()
unfoldable pub is_blank : String → Bool
is_blank String.[] = true
is_blank (String.◌∷◌ c s) = is_space (code c) && is_blank s

abbrev pub any_of {ℓ} : {A : Type ℓ} → (A → Bool) → List A → Bool
any_of p [] = false
any_of p (x ∷ xs) = p x || any_of p xs

-- len(ids) == len(set(ids))
unfoldable pub are_unique : List String → Bool
are_unique [] = true
are_unique (x ∷ xs) = not (contains xs x) && are_unique xs

-- equality of tuples of strings
unfoldable pub same_texts : List String → List String → Bool
same_texts [] [] = true
same_texts (x ∷ xs) (y ∷ ys) = str_eq x y && same_texts xs ys
same_texts _ _ = false

abbrev pub ids : List AnalyzerResult → List String
ids = map (λ r. r.analyzer_id)

abbrev unnamed : AnalyzerResult → Bool
unnamed r = is_blank r.analyzer_id || is_blank r.analyzer_version

-- _validated_results without `expected_ids`
unfoldable pub validated_results : List AnalyzerResult → Result (List AnalyzerResult)
validated_results results = do
  guard (not (any_of unnamed results)) value_error
  guard (are_unique (ids results)) value_error
  ok results

-- _validated_results with `expected_ids`
unfoldable pub validated_plan : List String → List AnalyzerResult → Result (List AnalyzerResult)
unfolding validated_results
validated_plan plan results = do
  guard (not (any_of is_blank plan)) value_error
  guard (are_unique plan) value_error
  checked ← validated_results results
  guard (same_texts (ids results) plan) value_error
  ok checked

unfoldable pub count_status : AnalyzerStatus → List AnalyzerResult → ℕ
count_status s [] = 0
count_status s (r ∷ rs) =
    if is_analyzer_status r.status s then suc (count_status s rs) else count_status s rs

-- The record of an assessed status, whose counters and ratio are never None. The range of the
-- ratio, which its constructor also checks, is left out.
pub record AnalysisCompleteness (fl : Floats) : Type 0 where
  pub status : CompletenessStatus
  pub planned_analyzers : ℕ
  pub applicable_analyzers : ℕ
  pub completed_analyzers : ℕ
  pub failed_analyzers : ℕ
  pub timed_out_analyzers : ℕ
  pub skipped_analyzers : ℕ
  pub not_applicable_analyzers : ℕ
  pub coverage_ratio : Floats.Float fl
  pub missing_capabilities : List String

abbrev is_missing : AnalyzerStatus → Bool
is_missing AnalyzerStatus.completed = false
is_missing _ = true

unfoldable pub missing : List AnalyzerResult → List String
missing [] = []
missing (r ∷ rs) = if is_missing r.status then r.analyzer_id ∷ missing rs else missing rs

module _ (fl : Floats) (minimum_for_assessment : Floats.Float fl) where
  open fl use {Float, zero, quotient, less}

  -- completed / applicable if applicable > 0 else 0.0
  abbrev pub coverage : ℕ → ℕ → Float
  coverage completed applicable = if ltb 0 applicable then quotient completed applicable else zero

  -- whether one of the four `insufficient_reasons` holds
  unfoldable pub is_insufficient : ℕ → ℕ → ℕ → Bool
  is_insufficient planned applicable completed =
      (planned == 0)
      || (applicable == 0)
      || (completed == 0)
      || less (coverage completed applicable) minimum_for_assessment

  unfoldable pub status_of : ℕ → ℕ → ℕ → ℕ → ℕ → ℕ → CompletenessStatus
  status_of planned applicable completed failed timed_out skipped =
      if is_insufficient planned applicable completed
      then CompletenessStatus.insufficient
      else if ltb 0 completed
          && (completed == applicable)
          && (failed == 0)
          && (timed_out == 0)
          && (skipped == 0)
      then CompletenessStatus.complete
      else CompletenessStatus.partial

  unfoldable pub build_completeness : List String → List AnalyzerResult → AnalysisCompleteness fl
  unfolding status_of
  build_completeness plan results =
      let planned = length plan in
      let completed = count_status AnalyzerStatus.completed results in
      let failed = count_status AnalyzerStatus.error results in
      let timed_out = count_status AnalyzerStatus.timeout results in
      let skipped = count_status AnalyzerStatus.skipped results in
      let not_applicable = count_status AnalyzerStatus.not_applicable results in
      let applicable = planned - not_applicable in
      record {
        status = status_of planned applicable completed failed timed_out skipped;
        planned_analyzers = planned;
        applicable_analyzers = applicable;
        completed_analyzers = completed;
        failed_analyzers = failed;
        timed_out_analyzers = timed_out;
        skipped_analyzers = skipped;
        not_applicable_analyzers = not_applicable;
        coverage_ratio = coverage completed applicable;
        missing_capabilities = missing results;
      }

  -- CompletenessAssessmentService.assess
  unfoldable pub assess_completeness :
      List String → List AnalyzerResult → Result (AnalysisCompleteness fl)
  assess_completeness plan results = elim (validated_plan plan results) [
    | ok checked ↦ ok (build_completeness plan checked)
    | err e ↦ err analysis_assessment
  ]
