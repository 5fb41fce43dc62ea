-- ===== src/Lifecycle/Registry/Steps.antt =====
-- The histories of the registry: every method that the receiver, the processor, the executor and
-- the janitor call, in any order and by any thread, one lock at a time.
use fakedetector.Prelude.{ℕ, Bool, true, none, ◌≡◌, ok, ◌⊎◌}
use fakedetector.Domain.{
  MediaType, AnalysisStatus, ProcessingStage, ErrorDetail, AnalyzerResult, Finding,
}
use fakedetector.Prelude.{List}
use fakedetector.Lifecycle.Task.{
  AnalysisTask, Datetime, TaskExecutionOutcome, PreparedMedia, Stage7TaskData, TaskRef,
  CleanupFacts, outcome_accepted,
}
use fakedetector.Lifecycle.Staging
use fakedetector.Lifecycle.Settlement
use fakedetector.Lifecycle.Settlement.{Confirmation, Progress}
use fakedetector.Lifecycle.Consistency.{IsConsistent}
use fakedetector.Lifecycle.Consistency.Staged
use fakedetector.Lifecycle.Consistency.Settled

-- One method that changes a task in place. The premises beside the equation state how the
-- program calls the method: `transition` for ROUTING and QUEUED, and `record_outcome` with an
-- outcome that its constructor accepted, of a task that `claim` returned.
pub data TaskStep (t u : AnalysisTask) : Type 0 where
  stages :
      (stage : ProcessingStage)
      → (stage ≡ ProcessingStage.routing) ⊎ (stage ≡ ProcessingStage.queued)
      → Staging.staged_transition AnalysisStatus.queued stage none none t ≡ ok u
      → TaskStep t u
  enqueues : (at : Datetime) → Staging.mark_enqueued at t ≡ ok u → TaskStep t u
  routes : (m : MediaType) → Staging.bind_route m t ≡ ok u → TaskStep t u
  claims : (at : Datetime) → Staging.claim at t ≡ ok u → TaskStep t u
  prepares :
      (ref : TaskRef) (p : PreparedMedia)
      → Staging.publish_stage5_prepared ref p t ≡ ok u
      → TaskStep t u
  analyses : (ref : TaskRef) → Staging.start_stage5_analysis ref t ≡ ok u → TaskStep t u
  appends :
      (ref : TaskRef) (r : AnalyzerResult)
      → Staging.append_stage5_analyzer_result ref r t ≡ ok u
      → TaskStep t u
  finds :
      (ref : TaskRef) (fs : List Finding)
      → Staging.publish_stage6_findings ref fs t ≡ ok u
      → TaskStep t u
  assesses : (ref : TaskRef) → Staging.start_stage7_assessment ref t ≡ ok u → TaskStep t u
  publishes :
      (ref : TaskRef) (a : Stage7TaskData)
      → Staging.publish_stage7_assessment ref a t ≡ ok u
      → TaskStep t u
  ends :
      (identity : ℕ) (released : Bool) (o : TaskExecutionOutcome)
      → outcome_accepted o ≡ true
      → t.execution_claimed ≡ true
      → Staging.record_outcome identity released o t ≡ ok u
      → TaskStep t u
  fails : (x : ErrorDetail) → Staging.fail_pending x t ≡ ok u → TaskStep t u
  settles :
      (token : ℕ) (released : Bool)
      → Settlement.claim_terminal_settlement token released t ≡ ok u
      → TaskStep t u
  confirms :
      (token : ℕ) (c : Confirmation) (b : Bool)
      → Settlement.try_confirm_terminal_cleanup_safe token c t ≡ ok (b, u)
      → TaskStep t u
  cleans : (token : ℕ) → Settlement.start_terminal_cleanup token t ≡ ok u → TaskStep t u
  progresses :
      (token : ℕ) (p : Progress)
      → Settlement.record_cleanup_progress token p t ≡ ok u
      → TaskStep t u
  freezes :
      (identity token : ℕ) (f : CleanupFacts)
      → Settlement.mark_terminal_facts_ready identity token f t ≡ ok u
      → TaskStep t u
  persists : (token : ℕ) → Settlement.start_terminal_persistence token t ≡ ok u → TaskStep t u
  loses :
      (token : ℕ) (x : ErrorDetail)
      → Settlement.record_result_persistence_failure token x t ≡ ok u
      → TaskStep t u
  releases : (token : ℕ) → Settlement.release_terminal_settlement token t ≡ ok u → TaskStep t u

pub TaskStep-IsConsistent : {t u : AnalysisTask} → TaskStep t u → IsConsistent t → IsConsistent u
TaskStep-IsConsistent (stages stage h e) c = Staged.staging-IsConsistent c stage h e
TaskStep-IsConsistent (enqueues at e) c = Staged.mark_enqueued-IsConsistent c at e
TaskStep-IsConsistent (routes m e) c = Staged.bind_route-IsConsistent c m e
TaskStep-IsConsistent (claims at e) c = Staged.claim-IsConsistent c at e
TaskStep-IsConsistent (prepares ref p e) c = Staged.publish_stage5_prepared-IsConsistent c ref p e
TaskStep-IsConsistent (analyses ref e) c = Staged.start_stage5_analysis-IsConsistent c ref e
TaskStep-IsConsistent (appends ref r e) c =
    Staged.append_stage5_analyzer_result-IsConsistent c ref r e
TaskStep-IsConsistent (finds ref fs e) c = Staged.publish_stage6_findings-IsConsistent c ref fs e
TaskStep-IsConsistent (assesses ref e) c = Staged.start_stage7_assessment-IsConsistent c ref e
TaskStep-IsConsistent (publishes ref a e) c =
    Staged.publish_stage7_assessment-IsConsistent c ref a e
TaskStep-IsConsistent (ends identity released o h k e) c =
    Staged.record_outcome-IsConsistent c identity released o h k e
TaskStep-IsConsistent (fails x e) c = Staged.fail_pending-IsConsistent c x e
TaskStep-IsConsistent (settles token released e) c =
    Settled.claim_terminal_settlement-IsConsistent c token released e
TaskStep-IsConsistent (confirms token a b e) c = Settled.try_confirm-IsConsistent c token a b e
TaskStep-IsConsistent (cleans token e) c = Settled.start_terminal_cleanup-IsConsistent c token e
TaskStep-IsConsistent (progresses token p e) c =
    Settled.record_cleanup_progress-IsConsistent c token p e
TaskStep-IsConsistent (freezes identity token f e) c =
    Settled.mark_terminal_facts_ready-IsConsistent c identity token f e
TaskStep-IsConsistent (persists token e) c =
    Settled.start_terminal_persistence-IsConsistent c token e
TaskStep-IsConsistent (loses token x e) c =
    Settled.record_result_persistence_failure-IsConsistent c token x e
TaskStep-IsConsistent (releases token e) c =
    Settled.release_terminal_settlement-IsConsistent c token e
