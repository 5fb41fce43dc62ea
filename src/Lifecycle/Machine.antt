-- ===== src/Lifecycle/Machine.antt =====
-- `AnalysisStateMachine` of fakedetector/lifecycle/execution.py.
pub mod Paths
use fakedetector.Prelude.{
  ℕ, Bool, true, false, ◌&&◌, ◌||◌, not, Option, none, some, Result, ok, err, lifecycle_state,
  ◌>>=◌, ◌>>◌, guard, is_some, is_none,
}
use fakedetector.Domain.{AnalysisStatus, ProcessingStage}
use fakedetector.Lifecycle.Task.{AnalysisContext, AnalysisTask}

-- _TRANSITIONS
unfoldable pub allowed : AnalysisStatus → ProcessingStage → AnalysisStatus → ProcessingStage → Bool
allowed AnalysisStatus.queued ProcessingStage.registered AnalysisStatus.queued
      ProcessingStage.routing =
    true
allowed AnalysisStatus.queued ProcessingStage.routing AnalysisStatus.queued ProcessingStage.queued =
    true
allowed AnalysisStatus.queued ProcessingStage.queued AnalysisStatus.running
      ProcessingStage.preprocessing =
    true
allowed AnalysisStatus.queued ProcessingStage.queued AnalysisStatus.failed ProcessingStage.cleanup =
    true
allowed AnalysisStatus.running ProcessingStage.preprocessing AnalysisStatus.running
      ProcessingStage.analysis =
    true
allowed AnalysisStatus.running ProcessingStage.preprocessing AnalysisStatus.completed
      ProcessingStage.cleanup =
    true
allowed AnalysisStatus.running ProcessingStage.preprocessing AnalysisStatus.failed
      ProcessingStage.cleanup =
    true
allowed AnalysisStatus.running ProcessingStage.analysis AnalysisStatus.running
      ProcessingStage.risk_assessment =
    true
allowed AnalysisStatus.running ProcessingStage.analysis AnalysisStatus.completed
      ProcessingStage.cleanup =
    true
allowed AnalysisStatus.running ProcessingStage.analysis AnalysisStatus.failed
      ProcessingStage.cleanup =
    true
allowed AnalysisStatus.running ProcessingStage.risk_assessment AnalysisStatus.completed
      ProcessingStage.cleanup =
    true
allowed AnalysisStatus.running ProcessingStage.risk_assessment AnalysisStatus.partial
      ProcessingStage.cleanup =
    true
allowed AnalysisStatus.running ProcessingStage.risk_assessment AnalysisStatus.failed
      ProcessingStage.cleanup =
    true
allowed AnalysisStatus.completed ProcessingStage.cleanup AnalysisStatus.completed
      ProcessingStage.persistence =
    true
allowed AnalysisStatus.failed ProcessingStage.cleanup AnalysisStatus.failed
      ProcessingStage.persistence =
    true
allowed AnalysisStatus.partial ProcessingStage.cleanup AnalysisStatus.partial
      ProcessingStage.persistence =
    true
allowed AnalysisStatus.completed ProcessingStage.persistence AnalysisStatus.completed
      ProcessingStage.finished =
    true
allowed AnalysisStatus.failed ProcessingStage.persistence AnalysisStatus.failed
      ProcessingStage.finished =
    true
allowed AnalysisStatus.partial ProcessingStage.persistence AnalysisStatus.partial
      ProcessingStage.finished =
    true
allowed _ _ _ _ = false

-- stage is ProcessingStage.X
abbrev pub is_risk_assessment : ProcessingStage → Bool
is_risk_assessment ProcessingStage.risk_assessment = true
is_risk_assessment _ = false

abbrev pub is_cleanup : ProcessingStage → Bool
is_cleanup ProcessingStage.cleanup = true
is_cleanup _ = false

abbrev pub is_persistence : ProcessingStage → Bool
is_persistence ProcessingStage.persistence = true
is_persistence _ = false

abbrev is_usable : AnalysisStatus → Bool
is_usable AnalysisStatus.completed = true
is_usable AnalysisStatus.partial = true
is_usable _ = false

-- The data that the target needs: Stage 6 data to enter the risk assessment, and Stage 7 data to
-- leave it with a usable outcome.
abbrev data_guard : ProcessingStage → AnalysisStatus → ProcessingStage → Bool → Bool → Bool
data_guard current status ProcessingStage.risk_assessment stage6 stage7 = stage6
data_guard ProcessingStage.risk_assessment AnalysisStatus.completed stage stage6 stage7 = stage7
data_guard ProcessingStage.risk_assessment AnalysisStatus.partial stage stage6 stage7 = stage7
data_guard current status stage stage6 stage7 = true

-- A start time is given exactly on entering PREPROCESSING, where none may be there yet.
abbrev started_guard : ProcessingStage → Option ℕ → Option ℕ → Bool
started_guard ProcessingStage.preprocessing before given = is_none before && is_some given
started_guard _ before given = is_none given

-- A finish time is given exactly on entering FINISHED, where none may be there yet.
abbrev finished_guard : ProcessingStage → Option ℕ → Option ℕ → Bool
finished_guard ProcessingStage.finished before given = is_none before && is_some given
finished_guard _ before given = is_none given

-- started_at or context.started_at
abbrev or_else : Option ℕ → Option ℕ → Option ℕ
or_else (some a) b = some a
or_else none b = b

unfoldable pub project_context :
    AnalysisTask
    → AnalysisContext
    → AnalysisStatus
    → ProcessingStage
    → Option ℕ
    → Option ℕ
    → Result AnalysisContext
unfolding allowed
project_context task context status stage started_at finished_at = do
  guard (allowed context.status context.stage status stage) lifecycle_state
  guard
      (data_guard context.stage status stage (is_some task.stage6_data) (is_some task.stage7_data))
      lifecycle_state
  guard (started_guard stage context.started_at started_at) lifecycle_state
  guard (finished_guard stage context.finished_at finished_at) lifecycle_state
  ok (record context {
    status = status;
    stage = stage;
    started_at = or_else started_at context.started_at;
    finished_at = finished_at;
  })

unfoldable pub transition :
    AnalysisTask → AnalysisStatus → ProcessingStage → Option ℕ → Option ℕ → Result AnalysisTask
unfolding project_context
transition task status stage started_at finished_at = do
  context ← project_context task task.context status stage started_at finished_at
  ok (record task { context = context })
