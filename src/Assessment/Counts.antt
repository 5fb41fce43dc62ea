-- ===== src/Assessment/Counts.antt =====
-- What the completeness counters say of the analyzer results.
use fakedetector.Prelude.{
  ℕ, ◌+◌, ◌<◌, String, Bool, true, false, List, [], ◌∷◌, ◌≡◌, refl, ok, err, Result, arith, length,
  All, analysis_assessment, ap, ◌⊎◌,
}
use fakedetector.Domain.{AnalyzerResult, AnalyzerStatus, CompletenessStatus}
use fakedetector.Assessment.Completeness.{
  Floats, AnalysisCompleteness, count_status, ids, same_texts, validated_plan, status_of,
  is_insufficient, build_completeness, assess_completeness,
}

pub length-same :
    (rs : List AnalyzerResult) (plan : List String)
    → same_texts (ids rs) plan ≡ true
    → length plan ≡ length rs
unfolding same_texts
length-same [] [] h = refl
length-same [] (x ∷ xs) h = cc
length-same (r ∷ rs) [] h = cc
length-same (r ∷ rs) (x ∷ xs) h = ground (arith, length-same rs xs)

counts-partition :
    (rs : List AnalyzerResult)
    → length rs
      ≡ count_status AnalyzerStatus.completed rs
        + count_status AnalyzerStatus.error rs
        + count_status AnalyzerStatus.timeout rs
        + count_status AnalyzerStatus.skipped rs
        + count_status AnalyzerStatus.not_applicable rs
unfolding count_status
counts-partition [] = refl
counts-partition (r ∷ rs) = ground (arith, counts-partition rs)

pub validated_plan_inv :
    (plan : List String) (rs checked : List AnalyzerResult)
    → validated_plan plan rs ≡ ok checked
    → (same_texts (ids rs) plan ≡ true) × (checked ≡ rs)
unfolding validated_plan
validated_plan_inv plan rs checked e = (ground arith, ground arith)

abbrev settled : AnalyzerStatus → Bool
settled AnalyzerStatus.completed = true
settled AnalyzerStatus.not_applicable = true
settled _ = false

-- An analyzer that completed, or was not applicable.
abbrev pub IsSettled : AnalyzerResult → Type 0
IsSettled r = settled r.status ≡ true

abbrev Unfailed : List AnalyzerResult → Type 0
Unfailed rs =
    (count_status AnalyzerStatus.error rs ≡ 0)
    × (count_status AnalyzerStatus.timeout rs ≡ 0)
    × (count_status AnalyzerStatus.skipped rs ≡ 0)

Unfailed-IsSettled : (rs : List AnalyzerResult) → Unfailed rs → All IsSettled rs
unfolding count_status
Unfailed-IsSettled [] h = tt
Unfailed-IsSettled (r ∷ rs) h = ground (arith, Unfailed-IsSettled rs)

settled-Unfailed : (rs : List AnalyzerResult) → All IsSettled rs → Unfailed rs
unfolding count_status
settled-Unfailed [] h = (refl, refl, refl)
settled-Unfailed (r ∷ rs) h = ground (arith, settled-Unfailed rs h.1)

module _ (fl : Floats) (minimum : Floats.Float fl) where
  pub assess_inv :
      (plan : List String) (rs : List AnalyzerResult) {c : AnalysisCompleteness fl}
      → assess_completeness fl minimum plan rs ≡ ok c
      → (length plan ≡ length rs) × (c ≡ build_completeness fl minimum plan rs)
  unfolding assess_completeness
  assess_inv plan rs {c} e = go (validated_plan plan rs) refl e
    where
      go :
          (v : Result (List AnalyzerResult))
          → validated_plan plan rs ≡ v
          → elim v [
            | ok checked ↦ ok (build_completeness fl minimum plan checked)
            | err x ↦ err analysis_assessment
          ]
            ≡ ok c
          → (length plan ≡ length rs) × (c ≡ build_completeness fl minimum plan rs)
      go (ok checked) h k =
          let (same, kept) = validated_plan_inv plan rs checked h in
          (length-same rs plan same, cc (k, ap (build_completeness fl minimum plan) kept))
      go (err x) h k = cc

  -- The counters of an accepted assessment partition the plan: every planned analyzer is counted
  -- under exactly one status, and the applicable ones are those that are not NOT_APPLICABLE.
  pub completeness_counters :
      (plan : List String) (rs : List AnalyzerResult) (c : AnalysisCompleteness fl)
      → assess_completeness fl minimum plan rs ≡ ok c
      → (c.planned_analyzers
          ≡ c.completed_analyzers + c.failed_analyzers + c.timed_out_analyzers + c.skipped_analyzers
            + c.not_applicable_analyzers)
        × (c.applicable_analyzers + c.not_applicable_analyzers ≡ c.planned_analyzers)
        × (c.planned_analyzers ≡ length rs)
  unfolding build_completeness
  completeness_counters plan rs c e =
      let (same, built) = assess_inv plan rs e in
      rw built
        (omega (arith, same, counts-partition rs), omega (arith, same, counts-partition rs), same)

  status-complete :
      (planned applicable completed failed timed_out skipped : ℕ)
      → status_of fl minimum planned applicable completed failed timed_out skipped
        ≡ CompletenessStatus.complete
      → (failed ≡ 0) × (timed_out ≡ 0) × (skipped ≡ 0) × (0 < completed)
  unfolding status_of
  status-complete planned applicable completed failed timed_out skipped h = ground arith

  status-settled :
      (planned applicable completed failed timed_out skipped : ℕ)
      → failed ≡ 0
      → timed_out ≡ 0
      → skipped ≡ 0
      → completed ≡ applicable
      → (status_of fl minimum planned applicable completed failed timed_out skipped
          ≡ CompletenessStatus.complete)
        ⊎ (status_of fl minimum planned applicable completed failed timed_out skipped
            ≡ CompletenessStatus.insufficient)
  unfolding status_of is_insufficient
  status-settled planned applicable completed failed timed_out skipped f t s c = ground arith

  -- COMPLETE means that every analyzer completed or was not applicable, and that one completed.
  pub completeness_complete :
      (plan : List String) (rs : List AnalyzerResult) (c : AnalysisCompleteness fl)
      → assess_completeness fl minimum plan rs ≡ ok c
      → c.status ≡ CompletenessStatus.complete
      → All IsSettled rs × (0 < c.completed_analyzers)
  unfolding build_completeness
  completeness_complete plan rs c e h =
      let (same, built) = assess_inv plan rs e in
      let (f, t, s, some_done) = status-complete _ _ _ _ _ _ (rw built at h) in
      (Unfailed-IsSettled rs (f, t, s), rw built some_done)

  -- Where every analyzer completed or was not applicable the assessment is never PARTIAL: it is
  -- COMPLETE or INSUFFICIENT.
  pub completeness_settled :
      (plan : List String) (rs : List AnalyzerResult) (c : AnalysisCompleteness fl)
      → assess_completeness fl minimum plan rs ≡ ok c
      → All IsSettled rs
      → (c.status ≡ CompletenessStatus.complete) ⊎ (c.status ≡ CompletenessStatus.insufficient)
  unfolding build_completeness
  completeness_settled plan rs c e h =
      let (same, built) = assess_inv plan rs e in
      let (f, t, s) = settled-Unfailed rs h in
      rw built (status-settled _ _ _ _ _ _ f t s (omega (arith, same, counts-partition rs)))
