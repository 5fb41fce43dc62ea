-- ===== src/Analysis/Execution.antt =====
-- `AnalysisExecutionService` of fakedetector/lifecycle/_analysis_execution.py: preprocessing,
-- analyzers, findings and assessment of one claimed task, under one deadline. The services that it
-- calls are given by what they answer. The monotonic clock is a sequence of answers, in microseconds.
pub mod Outcomes
use fakedetector.Prelude.{
  ℕ, suc, ◌+◌, String, Bool, true, false, ◌&&◌, not, Option, none, some, List, [], ◌∷◌, ◌++◌,
  Result, ok, err, Error, guard, str_eq, ltb, if◌then◌else◌, clock, lifecycle_state,
  analyzer_infrastructure, analyzer_unreaped, analysis_assessment, finding_formation,
  deadline_exceeded, preprocessing_failed, ◌==◌, same_flag,
}
use fakedetector.Prelude.Runs.{
  Run, returned, raised, Action, proceed, ◌>>=◌, ◌>>◌, give, from_result,
}
use fakedetector.Domain.{
  MediaType, AnalysisStatus, AnalyzerStatus, ErrorDetail, AnalyzerResult, Finding,
  CompletenessStatus, same_media, is_analyzer_status,
}
use fakedetector.Lifecycle.Task.{
  AnalysisTask, TaskRef, TaskExecutionOutcome, PreparedMedia, Stage5TaskData, Stage6TaskData,
  Stage7TaskData,
}
use fakedetector.Lifecycle.Staging.{
  validate_stage5_execution, publish_stage5_prepared, start_stage5_analysis,
  append_stage5_analyzer_result, publish_stage6_findings, start_stage7_assessment,
  publish_stage7_assessment,
}
use fakedetector.Preprocessing.Requirements.{PreprocessingRequirements}
use fakedetector.Analysis.Registry.{
  AnalyzerRegistration, AnalyzerRegistry, active_analyzer_ids, preprocessing_requirements,
}
use fakedetector.Analysis.Orchestrator
use fakedetector.Analysis.Orchestrator.{Attempt}

-- What the service was constructed with, and what its collaborators answer in this execution.
pub record Services : Type 0 where
  pub monotonic : ℕ → Option ℕ
  pub processing_timeout : ℕ
  pub snapshot_id : String
  pub analyzers : AnalyzerRegistry
  pub analyzer_timeout : ℕ
  pub prepare : PreprocessingRequirements → Result PreparedMedia
  pub manifest_bound : Bool
  pub attempts : PreparedMedia → List (AnalyzerRegistration × Attempt)
  pub form_findings : List AnalyzerResult → Result (List Finding)
  pub assess : List String → List AnalyzerResult → List Finding → Result Stage7TaskData

-- The task object, the local list `published_results`, and how often the clock was read.
pub record Execution : Type 0 where
  pub task : AnalysisTask
  pub published : List AnalyzerResult
  pub reads : ℕ

-- Their safe details, the phase and the reason, are left out.
abbrev internal_error : String → ErrorDetail
internal_error message = record {
  code = "internal_error";
  category = "internal";
  message = message;
  retryable = true;
}

abbrev pub execution_failure : ErrorDetail
execution_failure = internal_error "Внутренняя ошибка не позволила завершить обработку файла."

abbrev pub assessment_failure : ErrorDetail
assessment_failure = internal_error "Внутренняя ошибка не позволила сформировать риск-оценку."

abbrev pub processing_timeout_error : ErrorDetail
processing_timeout_error = record {
  code = "processing_timeout";
  category = "processing";
  message = "Превышено допустимое время обработки файла.";
  retryable = true;
}

abbrev pub preprocessing_resource_limit : ErrorDetail
preprocessing_resource_limit = record {
  code = "stage5_resource_limit";
  category = "resource_limit";
  message = "Превышен допустимый предел ресурсов предварительной обработки.";
  retryable = false;
}

-- TaskExecutionOutcome.failed, .completed and .partial
abbrev pub failed : ErrorDetail → Option ℕ → TaskExecutionOutcome
failed error barrier = record {
  status = AnalysisStatus.failed;
  errors = error ∷ [];
  cleanup_safety_barrier = barrier;
}

abbrev pub succeeded : AnalysisStatus → TaskExecutionOutcome
succeeded status = record { status = status; errors = []; cleanup_safety_barrier = none }

-- the equality of two results, and of two tuples of them
unfoldable pub same_result : AnalyzerResult → AnalyzerResult → Bool
same_result r s =
    str_eq r.analyzer_id s.analyzer_id
    && str_eq r.analyzer_version s.analyzer_version
    && same_media r.media_type s.media_type
    && str_eq r.group s.group
    && is_analyzer_status r.status s.status
    && same_flag r.applicable s.applicable

unfoldable pub same_results : List AnalyzerResult → List AnalyzerResult → Bool
same_results [] [] = true
same_results [] (s ∷ ss) = false
same_results (r ∷ rs) [] = false
same_results (r ∷ rs) (s ∷ ss) = same_result r s && same_results rs ss

abbrev results_in : Option Stage5TaskData → List AnalyzerResult
results_in none = []
results_in (some data5) = data5.analyzer_results

abbrev findings_in : Option Stage6TaskData → List Finding
findings_in none = []
findings_in (some data6) = data6.findings

-- _read_stage5_analyzer_results and _read_stage6_findings
unfoldable pub read_results : TaskRef → AnalysisTask → Result (List AnalyzerResult)
read_results ref task =
    if task.identity == ref.identity then ok (results_in task.stage5_data) else err lifecycle_state

unfoldable pub read_findings : TaskRef → AnalysisTask → Result (List Finding)
read_findings ref task =
    if task.identity == ref.identity then ok (findings_in task.stage6_data) else err lifecycle_state

abbrev pub is_not_assessed : CompletenessStatus → Bool
is_not_assessed CompletenessStatus.not_assessed = true
is_not_assessed _ = false

abbrev pub outcome_for : CompletenessStatus → TaskExecutionOutcome
outcome_for CompletenessStatus.complete = succeeded AnalysisStatus.completed
outcome_for _ = succeeded AnalysisStatus.partial

abbrev pub on_task : (AnalysisTask → Result AnalysisTask) → Action Execution (Unit {0})
on_task method w = (from_result (method w.task) >>= λ t v. returned tt (record v { task = t })) w

abbrev pub of_task : {A : Type 0} → (AnalysisTask → Result A) → Action Execution A
of_task method w = from_result (method w.task) w

abbrev pub media_of : AnalysisTask → Result MediaType
media_of task = ok task.validated_media

abbrev pub snapshot_of : AnalysisTask → Result String
snapshot_of task = ok task.context.config_snapshot_id

-- publish_result, for the orchestrator
abbrev pub publish : TaskRef → AnalyzerResult → Action Execution (Unit {0})
publish ref r w =
    (on_task (append_stage5_analyzer_result ref r) >>= λ done v.
    returned tt (record v { published = v.published ++ r ∷ [] }))
      w

module _ (s : Services) (ref : TaskRef) (deadline : ℕ) where
  -- remaining_timeout_seconds
  abbrev pub check_answer : Option ℕ → Action Execution (Unit {0})
  check_answer none w = raised clock w
  check_answer (some now) w = if ltb now deadline then returned tt w else raised deadline_exceeded w

  abbrev pub remaining_timeout : Action Execution (Unit {0})
  remaining_timeout w = check_answer (s.monotonic w.reads) (record w { reads = suc w.reads })

  -- the analyzers, on the task
  abbrev pub analyse : PreparedMedia → Action Execution (List AnalyzerResult)
  analyse prepared w =
      Orchestrator.execute s.analyzer_timeout s.analyzers.continue_on_failure prepared (publish ref)
        w.task.validated_media w.task.artifacts s.manifest_bound (s.attempts prepared)
        (record w { published = [] })

  -- tuple(published_results) != results
  abbrev pub check_published : List AnalyzerResult → Action Execution (Unit {0})
  check_published results w =
      from_result (guard (same_results w.published results) analyzer_infrastructure) w

  -- from the authoritative results on
  unfoldable pub conclude : List AnalyzerResult → Action Execution TaskExecutionOutcome
  conclude results = do
    authoritative ← of_task (read_results ref)
    from_result (guard (same_results authoritative results) analyzer_infrastructure)
    findings ← from_result (s.form_findings authoritative)
    remaining_timeout
    on_task (publish_stage6_findings ref findings)
    remaining_timeout
    assessed ← of_task (read_results ref)
    found ← of_task (read_findings ref)
    on_task (start_stage7_assessment ref)
    remaining_timeout
    media ← of_task media_of
    assessment ← from_result (s.assess (active_analyzer_ids media s.analyzers) assessed found)
    from_result (guard (not (is_not_assessed assessment.completeness)) analysis_assessment)
    remaining_timeout
    on_task (publish_stage7_assessment ref assessment)
    give (outcome_for assessment.completeness)

  -- from the preprocessing on
  unfoldable pub process : Action Execution TaskExecutionOutcome
  process = do
    remaining_timeout
    media ← of_task media_of
    requirements ← from_result (preprocessing_requirements media s.analyzers)
    prepared ← from_result (s.prepare requirements)
    remaining_timeout
    on_task (publish_stage5_prepared ref prepared)
    remaining_timeout
    on_task (start_stage5_analysis ref)
    remaining_timeout
    results ← analyse prepared
    check_published results
    remaining_timeout
    conclude results

  -- the body of the `try`
  unfoldable pub attempt : Action Execution TaskExecutionOutcome
  attempt = do
    on_task (validate_stage5_execution ref)
    snapshot ← of_task snapshot_of
    if str_eq snapshot s.snapshot_id then process else give (failed execution_failure none)

  -- a preprocessing failure without a barrier, after one more look at the deadline
  abbrev pub after_preprocessing :
      Bool → Run Execution (Unit {0}) → Run Execution TaskExecutionOutcome
  after_preprocessing resource_limit (returned done w) =
      returned
        (failed (if resource_limit then preprocessing_resource_limit else execution_failure) none) w
  after_preprocessing resource_limit (raised deadline_exceeded w) =
      returned (failed processing_timeout_error none) w
  after_preprocessing resource_limit (raised exception w) = raised exception w

  -- the handlers
  unfoldable pub handle : Error → Action Execution TaskExecutionOutcome
  handle deadline_exceeded w = returned (failed processing_timeout_error none) w
  handle (preprocessing_failed (some barrier) resource_limit) w =
      returned (failed execution_failure (some barrier)) w
  handle (preprocessing_failed none resource_limit) w =
      after_preprocessing resource_limit (remaining_timeout w)
  handle analyzer_infrastructure w = returned (failed execution_failure none) w
  handle (analyzer_unreaped barrier) w = returned (failed execution_failure (some barrier)) w
  handle finding_formation w = returned (failed execution_failure none) w
  handle analysis_assessment w = returned (failed assessment_failure none) w
  handle exception w = raised exception w

  abbrev pub rescue : Run Execution TaskExecutionOutcome → Run Execution TaskExecutionOutcome
  rescue (returned outcome w) = returned outcome w
  rescue (raised exception w) = handle exception w

-- _new_deadline, and `execute`
abbrev pub started : Option ℕ → Result ℕ
started none = err clock
started (some now) = ok now

unfoldable pub execute : Services → TaskRef → Action Execution TaskExecutionOutcome
execute s ref w =
    proceed (from_result (started (s.monotonic w.reads)) (record w { reads = suc w.reads }))
      (λ now v.
        rescue s ref (now + s.processing_timeout) (attempt s ref (now + s.processing_timeout) v))
