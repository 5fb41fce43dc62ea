-- ===== src/Lifecycle/Consistency/Staged.antt =====
-- The methods that stage, execute and terminate a task keep it consistent.
use fakedetector.Prelude.{ℕ, Bool, true, none, List, [], ◌∷◌, ◌++◌, ◌≡◌, ok, arith, ◌⊎◌, refl}
use fakedetector.Domain.{
  MediaType, AnalysisStatus, ProcessingStage, ErrorDetail, AnalyzerResult, Finding,
}
use fakedetector.Lifecycle.Task.{
  Datetime, AnalysisTask, TaskExecutionOutcome, PreparedMedia, Stage7TaskData, TaskRef,
  outcome_accepted,
}
use fakedetector.Lifecycle.Staging.{
  mark_enqueued, bind_route, claim, validate_stage5_execution, publish_stage5_prepared,
  start_stage5_analysis, append_stage5_analyzer_result, publish_stage6_findings,
  start_stage7_assessment, publish_stage7_assessment, record_outcome, fail_pending,
  staged_transition,
}
use fakedetector.Lifecycle.Consistency.{IsConsistent, no_failure}

-- A failure with an error keeps one when errors are added behind.
no_failure-append :
    (es fs : List ErrorDetail)
    → no_failure AnalysisStatus.failed fs ≡ true
    → no_failure AnalysisStatus.failed (es ++ fs) ≡ true
no_failure-append [] fs h = h
no_failure-append (e ∷ es) fs h = refl

module _ {t u : AnalysisTask} (c : IsConsistent t) where
  pub mark_enqueued-IsConsistent :
      (queued_at : Datetime) → mark_enqueued queued_at t ≡ ok u → IsConsistent u
  unfolding mark_enqueued
  mark_enqueued-IsConsistent q e = ground arith

  pub bind_route-IsConsistent : (m : MediaType) → bind_route m t ≡ ok u → IsConsistent u
  unfolding bind_route
  bind_route-IsConsistent m e = ground arith

  pub claim-IsConsistent : (started_at : Datetime) → claim started_at t ≡ ok u → IsConsistent u
  unfolding claim
  claim-IsConsistent s e = ground arith

  pub staging-IsConsistent :
      (stage : ProcessingStage)
      → (stage ≡ ProcessingStage.routing) ⊎ (stage ≡ ProcessingStage.queued)
      → staged_transition AnalysisStatus.queued stage none none t ≡ ok u
      → IsConsistent u
  unfolding staged_transition
  staging-IsConsistent stage h e = ground arith

  pub validate_stage5_execution-IsConsistent :
      (ref : TaskRef) → validate_stage5_execution ref t ≡ ok u → IsConsistent u
  unfolding validate_stage5_execution
  validate_stage5_execution-IsConsistent ref e = ground arith

  pub publish_stage5_prepared-IsConsistent :
      (ref : TaskRef) (p : PreparedMedia) → publish_stage5_prepared ref p t ≡ ok u → IsConsistent u
  unfolding publish_stage5_prepared
  publish_stage5_prepared-IsConsistent ref p e = ground arith

  pub start_stage5_analysis-IsConsistent :
      (ref : TaskRef) → start_stage5_analysis ref t ≡ ok u → IsConsistent u
  unfolding start_stage5_analysis
  start_stage5_analysis-IsConsistent ref e = ground arith

  pub append_stage5_analyzer_result-IsConsistent :
      (ref : TaskRef) (r : AnalyzerResult)
      → append_stage5_analyzer_result ref r t ≡ ok u
      → IsConsistent u
  unfolding append_stage5_analyzer_result
  append_stage5_analyzer_result-IsConsistent ref r e = ground arith

  pub publish_stage6_findings-IsConsistent :
      (ref : TaskRef) (fs : List Finding) → publish_stage6_findings ref fs t ≡ ok u → IsConsistent u
  unfolding publish_stage6_findings
  publish_stage6_findings-IsConsistent ref fs e = ground arith

  pub start_stage7_assessment-IsConsistent :
      (ref : TaskRef) → start_stage7_assessment ref t ≡ ok u → IsConsistent u
  unfolding start_stage7_assessment
  start_stage7_assessment-IsConsistent ref e = ground arith

  pub publish_stage7_assessment-IsConsistent :
      (ref : TaskRef) (a : Stage7TaskData)
      → publish_stage7_assessment ref a t ≡ ok u
      → IsConsistent u
  unfolding publish_stage7_assessment
  publish_stage7_assessment-IsConsistent ref a e = ground arith

  record_outcome_as :
      (identity : ℕ) (released : Bool) (o : TaskExecutionOutcome) (status : AnalysisStatus)
      → o.status ≡ status
      → outcome_accepted o ≡ true
      → t.execution_claimed ≡ true
      → record_outcome identity released o t ≡ ok u
      → IsConsistent u
  unfolding record_outcome
  record_outcome_as identity released o AnalysisStatus.completed s h k e = ground arith
  record_outcome_as identity released o AnalysisStatus.failed s h k e =
      ground (arith, no_failure-append t.errors o.errors)
  record_outcome_as identity released o _ s h k e = ground arith

  pub record_outcome-IsConsistent :
      (identity : ℕ) (released : Bool) (o : TaskExecutionOutcome)
      → outcome_accepted o ≡ true
      → t.execution_claimed ≡ true
      → record_outcome identity released o t ≡ ok u
      → IsConsistent u
  record_outcome-IsConsistent identity released o h k e =
      record_outcome_as identity released o o.status refl h k e

  pub fail_pending-IsConsistent : (x : ErrorDetail) → fail_pending x t ≡ ok u → IsConsistent u
  unfolding fail_pending
  fail_pending-IsConsistent x e = ground (arith, no_failure-append t.errors (x ∷ []))
