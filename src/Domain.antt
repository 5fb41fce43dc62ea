-- ===== src/Domain.antt =====
-- The enumerations of fakedetector/domain/enums.py and the records of domain/models.py that the
-- lifecycle and the assessment read. Fields that are only carried (texts, metrics, localizations,
-- evidence) are left out.
use fakedetector.Prelude.{◌≡◌, refl, Bool, true, false, String, Option, ℕ, List}

pub data MediaType : Type 0 where
  image audio video : MediaType

pub data AnalysisStatus : Type 0 where
  queued running completed partial rejected failed : AnalysisStatus

pub data ProcessingStage : Type 0 where
  registered validation routing queued preprocessing analysis finding_formation : ProcessingStage
  risk_assessment result_formation cleanup persistence finished : ProcessingStage

pub data AnalyzerStatus : Type 0 where
  completed skipped not_applicable error timeout : AnalyzerStatus

pub data FindingSeverity : Type 0 where
  weak significant critical : FindingSeverity

pub data RiskLevel : Type 0 where
  low medium high : RiskLevel

pub data CompletenessStatus : Type 0 where
  complete partial insufficient not_assessed : CompletenessStatus

pub data CleanupStatus : Type 0 where
  not_started completed partial failed : CleanupStatus

-- `a is b`
abbrev pub same_media : MediaType → MediaType → Bool
same_media image image = true
same_media audio audio = true
same_media video video = true
same_media _ _ = false

pub same_media_refl : (m : MediaType) → same_media m m ≡ true
same_media_refl image = refl
same_media_refl audio = refl
same_media_refl video = refl

pub same_media_eq : (m n : MediaType) → same_media m n ≡ true → m ≡ n
same_media_eq image image e = refl
same_media_eq audio audio e = refl
same_media_eq video video e = refl
same_media_eq image audio e = cc
same_media_eq image video e = cc
same_media_eq audio image e = cc
same_media_eq audio video e = cc
same_media_eq video image e = cc
same_media_eq video audio e = cc

abbrev pub same_status : AnalysisStatus → AnalysisStatus → Bool
same_status AnalysisStatus.queued AnalysisStatus.queued = true
same_status AnalysisStatus.running AnalysisStatus.running = true
same_status AnalysisStatus.completed AnalysisStatus.completed = true
same_status AnalysisStatus.partial AnalysisStatus.partial = true
same_status AnalysisStatus.rejected AnalysisStatus.rejected = true
same_status AnalysisStatus.failed AnalysisStatus.failed = true
same_status _ _ = false

abbrev pub is_analyzer_status : AnalyzerStatus → AnalyzerStatus → Bool
is_analyzer_status AnalyzerStatus.completed AnalyzerStatus.completed = true
is_analyzer_status AnalyzerStatus.skipped AnalyzerStatus.skipped = true
is_analyzer_status AnalyzerStatus.not_applicable AnalyzerStatus.not_applicable = true
is_analyzer_status AnalyzerStatus.error AnalyzerStatus.error = true
is_analyzer_status AnalyzerStatus.timeout AnalyzerStatus.timeout = true
is_analyzer_status _ _ = false

pub record ErrorDetail : Type 0 where
  pub code : String
  pub category : String
  pub message : String
  pub retryable : Bool

pub record AnalyzerResult : Type 0 where
  pub analyzer_id : String
  pub analyzer_version : String
  pub media_type : MediaType
  pub group : String
  pub status : AnalyzerStatus
  pub applicable : Bool

pub record Finding : Type 0 where
  pub finding_id : String
  pub group : String
  pub finding_type : String
  pub severity : FindingSeverity
  pub source_analyzer_id : String
  pub source_analyzer_version : String
  pub critical_override_eligible : Bool
  pub correlation_group : Option String

pub record CleanupResult : Type 0 where
  pub status : CleanupStatus
  pub original_file_deleted : Bool
  pub intermediate_files_deleted : Bool
  pub quarantine_used : Bool
  pub finished_at : Option ℕ
  pub errors : List ErrorDetail
