-- ===== src/Lifecycle/Registry/Advance.antt =====
-- A task only moves forward: what its methods have recorded is not taken back.
use fakedetector.Prelude.{ℕ, List, Bool, true, false, Option, none, some, ◌≡◌, ◌≤◌, ok, arith, ◌⊎◌}
use fakedetector.Domain.{
  ProcessingStage, AnalysisStatus, MediaType, ErrorDetail, AnalyzerResult, Finding,
}
use fakedetector.Lifecycle.Task.{
  AnalysisTask, TerminalSettlement, CleanupFacts, Datetime, TaskRef, PreparedMedia, Stage7TaskData,
  TaskExecutionOutcome, outcome_accepted,
}
use fakedetector.Lifecycle.Staging.{
  mark_enqueued, bind_route, claim, publish_stage5_prepared, start_stage5_analysis,
  append_stage5_analyzer_result, publish_stage6_findings, start_stage7_assessment,
  publish_stage7_assessment, record_outcome, fail_pending, staged_transition,
}
use fakedetector.Lifecycle.Settlement.{
  Confirmation, Progress, claim_terminal_settlement, try_confirm_terminal_cleanup_safe,
  start_terminal_cleanup, record_cleanup_progress, mark_terminal_facts_ready,
  start_terminal_persistence, record_result_persistence_failure, release_terminal_settlement,
  advance, only_adds,
}
use fakedetector.Lifecycle.Consistency.{settlement_fits, implies}
use fakedetector.Lifecycle.Registry.Steps.{
  TaskStep, stages, enqueues, routes, claims, prepares, analyses, appends, finds, assesses,
  publishes, ends, fails, settles, confirms, cleans, progresses, freezes, persists, loses, releases,
}

-- The order in which a task passes its stages.
abbrev pub rank : ProcessingStage → ℕ
rank ProcessingStage.registered = 0
rank ProcessingStage.validation = 1
rank ProcessingStage.routing = 2
rank ProcessingStage.queued = 3
rank ProcessingStage.preprocessing = 4
rank ProcessingStage.analysis = 5
rank ProcessingStage.finding_formation = 6
rank ProcessingStage.risk_assessment = 7
rank ProcessingStage.result_formation = 8
rank ProcessingStage.cleanup = 9
rank ProcessingStage.persistence = 10
rank ProcessingStage.finished = 11

-- A value that is there stays.
abbrev pub Keeps {ℓ} : {A : Type ℓ} → Option A → Option A → Type ℓ
Keeps none o = Unit
Keeps (some a) o = o ≡ some a

abbrev pub frozen : Option TerminalSettlement → Option (ℕ × CleanupFacts)
frozen none = none
frozen (some s) = s.facts

abbrev pub source_deleted : Option TerminalSettlement → Bool
source_deleted none = false
source_deleted (some s) = s.original_file_deleted

abbrev pub attempts : Option TerminalSettlement → ℕ
attempts none = 0
attempts (some s) = s.attempts_completed

pub record Advances (t u : AnalysisTask) : Type 0 where
  pub same_id : u.context.analysis_id ≡ t.context.analysis_id
  pub same_object : u.identity ≡ t.identity
  pub forward : rank t.context.stage ≤ rank u.context.stage
  pub queue_time : Keeps t.queued_at u.queued_at
  pub start_time : Keeps t.context.started_at u.context.started_at
  pub claimed : implies t.execution_claimed u.execution_claimed ≡ true
  pub facts : Keeps (frozen t.terminal_settlement) (frozen u.terminal_settlement)
  pub deleted :
      implies (source_deleted t.terminal_settlement) (source_deleted u.terminal_settlement) ≡ true
  pub counted : attempts t.terminal_settlement ≤ attempts u.terminal_settlement

abbrev Fits : AnalysisTask → Type 0
Fits t = settlement_fits t.context.stage t.terminal_settlement ≡ true

module _ {t u : AnalysisTask} (c : Fits t) where
  stages-Advances :
      (stage : ProcessingStage)
      → (stage ≡ ProcessingStage.routing) ⊎ (stage ≡ ProcessingStage.queued)
      → staged_transition AnalysisStatus.queued stage none none t ≡ ok u
      → Advances t u
  unfolding staged_transition
  stages-Advances stage h e = ground arith

  enqueues-Advances : (at : Datetime) → mark_enqueued at t ≡ ok u → Advances t u
  unfolding mark_enqueued
  enqueues-Advances at e = ground arith

  routes-Advances : (m : MediaType) → bind_route m t ≡ ok u → Advances t u
  unfolding bind_route
  routes-Advances m e = ground arith

  claims-Advances : (at : Datetime) → claim at t ≡ ok u → Advances t u
  unfolding claim
  claims-Advances at e = ground arith

  prepares-Advances :
      (ref : TaskRef) (p : PreparedMedia) → publish_stage5_prepared ref p t ≡ ok u → Advances t u
  unfolding publish_stage5_prepared
  prepares-Advances ref p e = ground arith

  analyses-Advances : (ref : TaskRef) → start_stage5_analysis ref t ≡ ok u → Advances t u
  unfolding start_stage5_analysis
  analyses-Advances ref e = ground arith

  appends-Advances :
      (ref : TaskRef) (r : AnalyzerResult)
      → append_stage5_analyzer_result ref r t ≡ ok u
      → Advances t u
  unfolding append_stage5_analyzer_result
  appends-Advances ref r e = ground arith

  finds-Advances :
      (ref : TaskRef) (fs : List Finding) → publish_stage6_findings ref fs t ≡ ok u → Advances t u
  unfolding publish_stage6_findings
  finds-Advances ref fs e = ground arith

  assesses-Advances : (ref : TaskRef) → start_stage7_assessment ref t ≡ ok u → Advances t u
  unfolding start_stage7_assessment
  assesses-Advances ref e = ground arith

  publishes-Advances :
      (ref : TaskRef) (a : Stage7TaskData) → publish_stage7_assessment ref a t ≡ ok u → Advances t u
  unfolding publish_stage7_assessment
  publishes-Advances ref a e = ground arith

  ends-Advances :
      (identity : ℕ) (released : Bool) (o : TaskExecutionOutcome)
      → outcome_accepted o ≡ true
      → t.execution_claimed ≡ true
      → record_outcome identity released o t ≡ ok u
      → Advances t u
  unfolding record_outcome
  ends-Advances identity released o h k e = ground arith

  fails-Advances : (x : ErrorDetail) → fail_pending x t ≡ ok u → Advances t u
  unfolding fail_pending
  fails-Advances x e = ground arith

  settles-Advances :
      (token : ℕ) (released : Bool)
      → claim_terminal_settlement token released t ≡ ok u
      → Advances t u
  unfolding claim_terminal_settlement
  settles-Advances token released e = ground arith

  confirms-Advances :
      (token : ℕ) (a : Confirmation) (b : Bool)
      → try_confirm_terminal_cleanup_safe token a t ≡ ok (b, u)
      → Advances t u
  unfolding try_confirm_terminal_cleanup_safe
  confirms-Advances token a b e = ground arith

  cleans-Advances : (token : ℕ) → start_terminal_cleanup token t ≡ ok u → Advances t u
  unfolding start_terminal_cleanup
  cleans-Advances token e = ground arith

  progresses-Advances :
      (token : ℕ) (p : Progress) → record_cleanup_progress token p t ≡ ok u → Advances t u
  unfolding record_cleanup_progress advance only_adds
  progresses-Advances token p e = ground arith

  freezes-Advances :
      (identity token : ℕ) (f : CleanupFacts)
      → mark_terminal_facts_ready identity token f t ≡ ok u
      → Advances t u
  unfolding mark_terminal_facts_ready
  freezes-Advances identity token f e = ground arith

  persists-Advances : (token : ℕ) → start_terminal_persistence token t ≡ ok u → Advances t u
  unfolding start_terminal_persistence
  persists-Advances token e = ground arith

  loses-Advances :
      (token : ℕ) (x : ErrorDetail)
      → record_result_persistence_failure token x t ≡ ok u
      → Advances t u
  unfolding record_result_persistence_failure
  loses-Advances token x e = ground arith

  releases-Advances : (token : ℕ) → release_terminal_settlement token t ≡ ok u → Advances t u
  unfolding release_terminal_settlement
  releases-Advances token e = ground arith

  pub TaskStep-Advances : TaskStep t u → Advances t u
  TaskStep-Advances (stages stage h e) = stages-Advances stage h e
  TaskStep-Advances (enqueues at e) = enqueues-Advances at e
  TaskStep-Advances (routes m e) = routes-Advances m e
  TaskStep-Advances (claims at e) = claims-Advances at e
  TaskStep-Advances (prepares ref p e) = prepares-Advances ref p e
  TaskStep-Advances (analyses ref e) = analyses-Advances ref e
  TaskStep-Advances (appends ref r e) = appends-Advances ref r e
  TaskStep-Advances (finds ref fs e) = finds-Advances ref fs e
  TaskStep-Advances (assesses ref e) = assesses-Advances ref e
  TaskStep-Advances (publishes ref a e) = publishes-Advances ref a e
  TaskStep-Advances (ends identity released o h k e) = ends-Advances identity released o h k e
  TaskStep-Advances (fails x e) = fails-Advances x e
  TaskStep-Advances (settles token released e) = settles-Advances token released e
  TaskStep-Advances (confirms token a b e) = confirms-Advances token a b e
  TaskStep-Advances (cleans token e) = cleans-Advances token e
  TaskStep-Advances (progresses token p e) = progresses-Advances token p e
  TaskStep-Advances (freezes identity token f e) = freezes-Advances identity token f e
  TaskStep-Advances (persists token e) = persists-Advances token e
  TaskStep-Advances (loses token x e) = loses-Advances token x e
  TaskStep-Advances (releases token e) = releases-Advances token e
