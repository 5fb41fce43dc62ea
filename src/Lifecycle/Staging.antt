-- ===== src/Lifecycle/Staging.antt =====
-- The methods of `TaskRegistry` (fakedetector/lifecycle/execution.py) that take a task from its
-- reservation to its outcome, each as a function of the task that the registry holds.
use fakedetector.Prelude.{
  ℕ, String, Bool, true, false, ◌&&◌, ◌||◌, not, Option, none, some, List, [], ◌∷◌, ◌++◌, ◌==◌,
  str_eq, Result, ok, err, lifecycle_state, timestamp_validation, queue_state, ◌>>=◌, ◌>>◌, guard,
  is_some, is_none, leb, if◌then◌else◌, length,
}
use fakedetector.Domain.{
  MediaType, AnalysisStatus, ProcessingStage, ErrorDetail, AnalyzerResult, Finding, same_media,
}
use fakedetector.Lifecycle.Task.{
  Datetime, utc, other, AnalysisTask, TaskExecutionOutcome, TerminalSettlement, PreparedMedia,
  Stage5TaskData, Stage7TaskData, TaskRef, matches_registered_artifact, TerminalSettlementPhase,
}
use fakedetector.Lifecycle.Machine.{transition}

abbrev pub is_stage : ProcessingStage → ProcessingStage → Bool
is_stage ProcessingStage.registered ProcessingStage.registered = true
is_stage ProcessingStage.routing ProcessingStage.routing = true
is_stage ProcessingStage.queued ProcessingStage.queued = true
is_stage ProcessingStage.preprocessing ProcessingStage.preprocessing = true
is_stage ProcessingStage.analysis ProcessingStage.analysis = true
is_stage ProcessingStage.risk_assessment ProcessingStage.risk_assessment = true
is_stage ProcessingStage.cleanup ProcessingStage.cleanup = true
is_stage ProcessingStage.persistence ProcessingStage.persistence = true
is_stage ProcessingStage.finished ProcessingStage.finished = true
is_stage _ _ = false

abbrev is_running : AnalysisStatus → Bool
is_running AnalysisStatus.running = true
is_running _ = false

-- validate_utc_datetime, and the order tests of `_validate_queued_at`
abbrev not_before : ℕ → Datetime → Result ℕ
not_before bound (utc t) = if leb bound t then ok t else err timestamp_validation
not_before bound other = err timestamp_validation

-- TaskRegistry.transition, which keeps PERSISTENCE and FINISHED to the settlement
unfoldable pub staged_transition :
    AnalysisStatus → ProcessingStage → Option ℕ → Option ℕ → AnalysisTask → Result AnalysisTask
unfolding transition
staged_transition status ProcessingStage.persistence started_at finished_at task =
    err lifecycle_state
staged_transition status ProcessingStage.finished started_at finished_at task = err lifecycle_state
staged_transition status ProcessingStage.analysis started_at finished_at task = do
  guard (is_some task.stage5_data) lifecycle_state
  transition task status ProcessingStage.analysis started_at finished_at
staged_transition status ProcessingStage.risk_assessment started_at finished_at task = do
  guard (is_some task.stage6_data) lifecycle_state
  transition task status ProcessingStage.risk_assessment started_at finished_at
staged_transition status stage started_at finished_at task =
    transition task status stage started_at finished_at

unfoldable pub mark_enqueued : Datetime → AnalysisTask → Result AnalysisTask
mark_enqueued queued_at task = do
  guard (is_none task.queued_at && is_stage task.context.stage ProcessingStage.queued) queue_state
  t ← not_before task.context.created_at queued_at
  ok (record task { queued_at = some t })

unfoldable pub bind_route : MediaType → AnalysisTask → Result AnalysisTask
bind_route media_type task = do
  guard (is_none task.route && is_stage task.context.stage ProcessingStage.routing) lifecycle_state
  guard (same_media media_type task.validated_media) lifecycle_state
  ok (record task { route = some media_type })

abbrev started_after : ℕ → Option ℕ → Datetime → Result ℕ
started_after created none started_at = err lifecycle_state
started_after created (some queued) other = err timestamp_validation
started_after created (some queued) (utc t) =
    if leb created t && leb queued t then ok t else err timestamp_validation

unfoldable pub claim : Datetime → AnalysisTask → Result AnalysisTask
unfolding transition
claim started_at task = do
  guard (not task.execution_claimed && is_some task.queued_at) lifecycle_state
  t ← started_after task.context.created_at task.queued_at started_at
  moved ← transition task AnalysisStatus.running ProcessingStage.preprocessing (some t) none
  ok (record moved { execution_claimed = true })

-- _require_stage5_task, of the reference that a caller holds
unfoldable pub require_stage5_task : TaskRef → ProcessingStage → AnalysisTask → Bool
require_stage5_task ref stage task =
    (task.identity == ref.identity)
    && task.execution_claimed
    && is_running task.context.status
    && is_stage task.context.stage stage
    && is_none task.cleanup_result
    && is_none task.terminal_settlement

abbrev pub all_match {ℓ} : {A : Type ℓ} → (A → Bool) → List A → Bool
all_match p [] = true
all_match p (x ∷ xs) = p x && all_match p xs

unfoldable pub validate_stage5_execution : TaskRef → AnalysisTask → Result AnalysisTask
unfolding require_stage5_task
validate_stage5_execution ref task = do
  guard (require_stage5_task ref ProcessingStage.preprocessing task) lifecycle_state
  guard (is_none task.stage5_data) lifecycle_state
  ok task

-- The identity, media type and capabilities of the prepared value are the task's.
unfoldable pub prepared_fits : PreparedMedia → AnalysisTask → Bool
prepared_fits prepared task =
    str_eq prepared.analysis_id task.context.analysis_id
    && same_media prepared.media_type task.context.media_type
    && (prepared.source_file_ref == task.accepted_source)
    && all_match (matches_registered_artifact task.artifacts) prepared.artifacts

unfoldable pub publish_stage5_prepared :
    TaskRef → PreparedMedia → AnalysisTask → Result AnalysisTask
unfolding require_stage5_task
publish_stage5_prepared ref prepared task = do
  guard (require_stage5_task ref ProcessingStage.preprocessing task) lifecycle_state
  guard (is_none task.stage5_data) lifecycle_state
  guard (prepared_fits prepared task) lifecycle_state
  ok (record task {
    stage5_data = some (record { prepared_media = prepared; analyzer_results = [] });
  })

unfoldable pub start_stage5_analysis : TaskRef → AnalysisTask → Result AnalysisTask
unfolding require_stage5_task transition
start_stage5_analysis ref task = do
  guard (require_stage5_task ref ProcessingStage.preprocessing task) lifecycle_state
  guard (is_some task.stage5_data) lifecycle_state
  transition task AnalysisStatus.running ProcessingStage.analysis none none

abbrev pub has_analyzer : String → List AnalyzerResult → Bool
has_analyzer id [] = false
has_analyzer id (r ∷ rs) = str_eq r.analyzer_id id || has_analyzer id rs

unfoldable pub append_result :
    AnalyzerResult → AnalysisTask → Option Stage5TaskData → Result AnalysisTask
append_result result task none = err lifecycle_state
append_result result task (some data5) = do
  guard (is_none task.stage6_data) lifecycle_state
  guard (same_media result.media_type task.context.media_type) lifecycle_state
  guard (not (has_analyzer result.analyzer_id data5.analyzer_results)) lifecycle_state
  ok (record task {
    stage5_data = some (record data5 { analyzer_results = data5.analyzer_results ++ result ∷ [] });
  })

unfoldable pub append_stage5_analyzer_result :
    TaskRef → AnalyzerResult → AnalysisTask → Result AnalysisTask
unfolding require_stage5_task append_result
append_stage5_analyzer_result ref result task = do
  guard (require_stage5_task ref ProcessingStage.analysis task) lifecycle_state
  append_result result task task.stage5_data

abbrev pub find_result : String → List AnalyzerResult → Option AnalyzerResult
find_result id [] = none
find_result id (r ∷ rs) = if str_eq r.analyzer_id id then some r else find_result id rs

abbrev matches_source : Finding → Option AnalyzerResult → Bool
matches_source f none = false
matches_source f (some source) =
    str_eq f.source_analyzer_version source.analyzer_version && str_eq f.group source.group

abbrev pub has_finding : String → List Finding → Bool
has_finding id [] = false
has_finding id (f ∷ fs) = str_eq f.finding_id id || has_finding id fs

-- `Stage6TaskData.__post_init__`: the finding ids are distinct
abbrev pub distinct_findings : List Finding → Bool
distinct_findings [] = true
distinct_findings (f ∷ fs) = not (has_finding f.finding_id fs) && distinct_findings fs

abbrev pub max_stage6_findings : ℕ
max_stage6_findings = 48

unfoldable pub attach_findings :
    List Finding → AnalysisTask → Option Stage5TaskData → Result AnalysisTask
attach_findings findings task none = err lifecycle_state
attach_findings findings task (some data5) = do
  guard (is_none task.stage6_data) lifecycle_state
  guard
      (all_match (λ f. matches_source f (find_result f.source_analyzer_id data5.analyzer_results))
        findings)
      lifecycle_state
  ok (record task { stage6_data = some (record { findings = findings }) })

unfoldable pub publish_stage6_findings : TaskRef → List Finding → AnalysisTask → Result AnalysisTask
unfolding require_stage5_task attach_findings
publish_stage6_findings ref findings task = do
  guard (leb (length findings) max_stage6_findings) lifecycle_state
  guard (distinct_findings findings) lifecycle_state
  guard (require_stage5_task ref ProcessingStage.analysis task) lifecycle_state
  attach_findings findings task task.stage5_data

unfoldable pub start_stage7_assessment : TaskRef → AnalysisTask → Result AnalysisTask
unfolding require_stage5_task transition
start_stage7_assessment ref task = do
  guard (require_stage5_task ref ProcessingStage.analysis task) lifecycle_state
  guard (is_some task.stage6_data && is_none task.stage7_data) lifecycle_state
  transition task AnalysisStatus.running ProcessingStage.risk_assessment none none

unfoldable pub publish_stage7_assessment :
    TaskRef → Stage7TaskData → AnalysisTask → Result AnalysisTask
unfolding require_stage5_task
publish_stage7_assessment ref assessment task = do
  guard (require_stage5_task ref ProcessingStage.risk_assessment task) lifecycle_state
  guard (is_some task.stage5_data && is_some task.stage6_data && is_none task.stage7_data)
      lifecycle_state
  ok (record task { stage7_data = some assessment })

-- A deferred cleanup starts as an unowned claim behind its barrier.
abbrev deferred : ℕ → Bool → Option ℕ → Option TerminalSettlement → Option TerminalSettlement
deferred identity released none settlement = settlement
deferred identity released (some barrier) settlement = some (record {
  identity = identity;
  phase = TerminalSettlementPhase.claimed;
  owner_token = none;
  cleanup_safety_barrier = some barrier;
  original_file_deleted = released;
  artifact_cleanup_completed = false;
  intermediate_files_deleted = false;
  quarantine_used = false;
  quarantine_decided = false;
  attempts_completed = 0;
  facts = none;
})

-- `identity` names the settlement object that may be made; `released` is what
-- `task.accepted_source.is_released` answers.
unfoldable pub record_outcome : ℕ → Bool → TaskExecutionOutcome → AnalysisTask → Result AnalysisTask
unfolding transition
record_outcome identity released outcome task = do
  moved ← transition task outcome.status ProcessingStage.cleanup none none
  ok (record moved {
    errors = moved.errors ++ outcome.errors;
    terminal_settlement =
        deferred identity released outcome.cleanup_safety_barrier moved.terminal_settlement;
  })

unfoldable pub fail_pending : ErrorDetail → AnalysisTask → Result AnalysisTask
unfolding transition
fail_pending error task = do
  guard (not task.execution_claimed && is_some task.queued_at) lifecycle_state
  moved ← transition task AnalysisStatus.failed ProcessingStage.cleanup none none
  ok (record moved { errors = moved.errors ++ error ∷ [] })
