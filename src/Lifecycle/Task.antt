-- ===== src/Lifecycle/Task.antt =====
-- fakedetector/lifecycle/models.py: the task aggregate and the values it retains, with the
-- artifact capabilities of lifecycle/artifacts.py that a task checks.
-- A time is a number of microseconds of UTC. What Python compares by `is` (a task, a source, a
-- barrier, an owner token, a registry token) is a number that names the object. Canonical JSON
-- bytes are held as the value that they serialize.
use fakedetector.Prelude.{
  ℕ, String, Bool, true, false, ◌&&◌, not, Option, none, List, [], ◌∷◌, ◌==◌, str_eq, contains,
  is_none,
}
use fakedetector.Domain.{
  MediaType, AnalysisStatus, ProcessingStage, CleanupStatus, CompletenessStatus, RiskLevel,
  ErrorDetail, AnalyzerResult, Finding, CleanupResult,
}

-- A datetime argument: an aware UTC time, or a value that `validate_utc_datetime` refuses.
pub data Datetime : Type 0 where
  utc : ℕ → Datetime
  other : Datetime

pub record AnalysisContext : Type 0 where
  pub analysis_id : String
  pub created_at : ℕ
  pub status : AnalysisStatus
  pub stage : ProcessingStage
  pub media_type : MediaType
  pub config_snapshot_id : String
  pub started_at : Option ℕ
  pub finished_at : Option ℕ

pub record TaskExecutionOutcome : Type 0 where
  pub status : AnalysisStatus
  pub errors : List ErrorDetail
  pub cleanup_safety_barrier : Option ℕ

abbrev is_empty {ℓ} : {A : Type ℓ} → List A → Bool
is_empty [] = true
is_empty (x ∷ xs) = false

abbrev outcome_rules : AnalysisStatus → Bool → Bool → Bool
outcome_rules AnalysisStatus.completed no_errors no_barrier = no_errors && no_barrier
outcome_rules AnalysisStatus.partial no_errors no_barrier = no_barrier
outcome_rules AnalysisStatus.failed no_errors no_barrier = not no_errors
outcome_rules _ no_errors no_barrier = false

-- the checks of `TaskExecutionOutcome.__post_init__`
abbrev pub outcome_accepted : TaskExecutionOutcome → Bool
outcome_accepted o = outcome_rules o.status (is_empty o.errors) (is_none o.cleanup_safety_barrier)

pub data TerminalSettlementPhase : Type 0 where
  claimed cleanup_in_progress fact_ready : TerminalSettlementPhase

pub record CleanupFacts : Type 0 where
  pub status : CleanupStatus
  pub original_file_deleted : Bool
  pub intermediate_files_deleted : Bool
  pub quarantine_used : Bool
  pub errors : List ErrorDetail

-- The number beside the facts names the object that holds them.
pub record TerminalSettlement : Type 0 where
  pub identity : ℕ
  pub phase : TerminalSettlementPhase
  pub owner_token : Option ℕ
  pub cleanup_safety_barrier : Option ℕ
  pub original_file_deleted : Bool
  pub artifact_cleanup_completed : Bool
  pub intermediate_files_deleted : Bool
  pub quarantine_used : Bool
  pub quarantine_decided : Bool
  pub attempts_completed : ℕ
  pub facts : Option (ℕ × CleanupFacts)

pub record WorkspaceArtifactRef : Type 0 where
  pub registry_token : ℕ
  pub artifact_id : String

pub record WorkspaceArtifactRegistry : Type 0 where
  pub registry_token : ℕ
  pub obligations : List String
  pub completed : List String

pub record PreparedArtifact : Type 0 where
  pub artifact_id : String
  pub artifact_ref : WorkspaceArtifactRef

unfoldable pub matches_registered_artifact : WorkspaceArtifactRegistry → PreparedArtifact → Bool
matches_registered_artifact r a =
    (a.artifact_ref.registry_token == r.registry_token)
    && contains r.obligations a.artifact_ref.artifact_id
    && not (contains r.completed a.artifact_ref.artifact_id)
    && str_eq a.artifact_ref.artifact_id a.artifact_id

pub record PreparedMedia : Type 0 where
  pub analysis_id : String
  pub media_type : MediaType
  pub source_file_ref : ℕ
  pub artifacts : List PreparedArtifact

pub record Stage5TaskData : Type 0 where
  pub prepared_media : PreparedMedia
  pub analyzer_results : List AnalyzerResult

pub record Stage6TaskData : Type 0 where
  pub findings : List Finding

-- The three canonical values, by the parts that the lifecycle reads.
pub record Stage7TaskData : Type 0 where
  pub completeness : CompletenessStatus
  pub final_level : Option RiskLevel

pub record AnalysisTask : Type 0 where
  pub identity : ℕ
  pub context : AnalysisContext
  pub validated_media : MediaType
  pub accepted_source : ℕ
  pub artifacts : WorkspaceArtifactRegistry
  pub stage5_data : Option Stage5TaskData
  pub stage6_data : Option Stage6TaskData
  pub stage7_data : Option Stage7TaskData
  pub queued_at : Option ℕ
  pub cleanup_result : Option CleanupResult
  pub errors : List ErrorDetail
  pub route : Option MediaType
  pub execution_claimed : Bool
  pub terminal_settlement : Option TerminalSettlement

-- A reference to a task object that a caller holds.
pub record TaskRef : Type 0 where
  pub analysis_id : String
  pub identity : ℕ

-- A freshly constructed task, as the receiver builds it.
unfoldable pub fresh_task : ℕ → String → ℕ → MediaType → String → ℕ → ℕ → AnalysisTask
fresh_task identity analysis_id created_at media_type snapshot source registry_token = record {
  identity = identity;
  context = record {
    analysis_id = analysis_id;
    created_at = created_at;
    status = AnalysisStatus.queued;
    stage = ProcessingStage.registered;
    media_type = media_type;
    config_snapshot_id = snapshot;
    started_at = none;
    finished_at = none;
  };
  validated_media = media_type;
  accepted_source = source;
  artifacts = record { registry_token = registry_token; obligations = []; completed = [] };
  stage5_data = none;
  stage6_data = none;
  stage7_data = none;
  queued_at = none;
  cleanup_result = none;
  errors = [];
  route = none;
  execution_claimed = false;
  terminal_settlement = none;
}

pub record TaskSnapshot : Type 0 where
  pub analysis_id : String
  pub created_at : ℕ
  pub status : AnalysisStatus
  pub stage : ProcessingStage
  pub media_type : MediaType
  pub config_snapshot_id : String
  pub queued_at : Option ℕ
  pub started_at : Option ℕ
  pub finished_at : Option ℕ
  pub route : Option MediaType
  pub cleanup : Option CleanupResult
  pub errors : List ErrorDetail

-- AnalysisTask._snapshot
abbrev pub snapshot_of : AnalysisTask → AnalysisContext → Option CleanupResult → TaskSnapshot
snapshot_of task context cleanup_result = record {
  analysis_id = context.analysis_id;
  created_at = context.created_at;
  status = context.status;
  stage = context.stage;
  media_type = context.media_type;
  config_snapshot_id = context.config_snapshot_id;
  queued_at = task.queued_at;
  started_at = context.started_at;
  finished_at = context.finished_at;
  route = task.route;
  cleanup = cleanup_result;
  errors = task.errors;
}

-- AnalysisTask.snapshot
abbrev pub snapshot : AnalysisTask → TaskSnapshot
snapshot task = snapshot_of task task.context task.cleanup_result

-- The detached result inputs that one settled task hands to the result finalizer.
pub record TerminalTaskFacts : Type 0 where
  pub analysis_id : String
  pub created_at : ℕ
  pub status : AnalysisStatus
  pub config_snapshot_id : String
  pub queued_at : Option ℕ
  pub started_at : Option ℕ
  pub analyzer_results : List AnalyzerResult
  pub findings : List Finding
  pub assessment : Option Stage7TaskData
  pub cleanup : CleanupResult
  pub errors : List ErrorDetail
