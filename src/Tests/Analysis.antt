-- ===== src/Tests/Analysis.antt =====
-- The plan, the orchestrator and the execution of the analyzers on one audio analyzer.
use fakedetector.Prelude.{
  ◌≡◌, refl, ℕ, ◌+◌, true, false, some, none, List, [], ◌∷◌, ok, err, key_error,
}
use fakedetector.Prelude.Runs.{returned, raised}
use fakedetector.Domain.{
  audio, AnalysisStatus, ProcessingStage, AnalyzerStatus, AnalyzerResult, CompletenessStatus,
}
use fakedetector.Lifecycle.Task.{
  AnalysisTask, TaskRef, PreparedMedia, fresh_task, outcome_accepted, matches_registered_artifact,
}
use fakedetector.Lifecycle.Staging.{
  require_stage5_task, validate_stage5_execution, publish_stage5_prepared, prepared_fits,
  start_stage5_analysis, append_stage5_analyzer_result, append_result, publish_stage6_findings,
  attach_findings, start_stage7_assessment, publish_stage7_assessment,
}
use fakedetector.Lifecycle.Machine.{transition, project_context, allowed}
use fakedetector.Preprocessing.Requirements.{
  PreprocessingRequirements, aggregate, declare, closure, expand, any_spectrogram, any_track,
  all_forensic, subset, validate_media,
}
use fakedetector.Analysis.Registry.{
  AnalyzerRegistration, AnalyzersConfig, AnalyzerRegistry, build_registry, register_all,
  is_valid_registration, find_registration, all_validated, supports, activate, plan_for,
  all_different, active_plan, active_analyzer_ids, enabled_for, demands, preprocessing_requirements,
  plan_ids,
}
use fakedetector.Analysis.Registry.Plans.{
  plan_as_configured, all_support, preprocessing_requirements_succeeds,
}
use fakedetector.Analysis.Orchestrator
use fakedetector.Analysis.Orchestrator.{
  Attempt, Remaining, unlimited, responded, result, timed_out, execute_plan, valid_inputs,
  execute_active, effective_timeout, accept_run, accept_response, has_identity, failure_result,
  is_failure,
}
use fakedetector.Analysis.Orchestrator.Published.{executed_as_planned, all_labelled, follows_policy}
use fakedetector.Analysis.Orchestrator.Appended.{
  published_in_full, silent, append_to, with_results, attempt_ids,
}
use fakedetector.Analysis.Execution.{
  Services, Execution, execute, attempt, process, conclude, handle, read_results, read_findings,
  same_results, same_result, succeeded,
}
use fakedetector.Analysis.Execution.Outcomes.{
  execute_outcome, execute_catches, IsSettled, is_caught,
}

abbrev nothing_demanded : PreprocessingRequirements
nothing_demanded = record { audio_spectrogram = false; video_audio_track = false; forensic = [] }

abbrev spectrum : AnalyzerRegistration
spectrum = record {
  analyzer_id = "spectrum";
  analyzer_version = "1";
  group = "audio";
  supported_media_types = audio ∷ [];
  preprocessing_requirements = nothing_demanded;
  well_formed = true;
}

abbrev config : AnalyzersConfig
config = record {
  image_enabled = [];
  audio_enabled = "spectrum" ∷ [];
  video_enabled = [];
  default_continue = false;
  continue_if_analyzer_fails = false;
  refused_settings = false;
}

abbrev registry : AnalyzerRegistry
registry = record {
  image_plan = [];
  audio_plan = spectrum ∷ [];
  video_plan = [];
  continue_on_failure = false;
}

built : build_registry config (spectrum ∷ []) ≡ ok registry
unfolding build_registry register_all is_valid_registration find_registration all_validated supports
    activate plan_for all_different subset
built = refl

plan_as_configured_example :
    (active_analyzer_ids audio registry ≡ enabled_for audio config)
    × (all_different (active_analyzer_ids audio registry) ≡ true)
    × (all_support audio (active_plan audio registry) ≡ true)
plan_as_configured_example = plan_as_configured config (spectrum ∷ []) audio built

preprocessing_requirements_succeeds_example :
    preprocessing_requirements audio registry
    ≡ ok (aggregate (demands (active_plan audio registry)))
preprocessing_requirements_succeeds_example =
    preprocessing_requirements_succeeds config (spectrum ∷ []) audio built

abbrev prepared : PreparedMedia
prepared = record { analysis_id = "a1"; media_type = audio; source_file_ref = 3; artifacts = [] }

abbrev answer : AnalyzerResult
answer = record {
  analyzer_id = "spectrum";
  analyzer_version = "1";
  media_type = audio;
  group = "audio";
  status = AnalyzerStatus.completed;
  applicable = true;
}

abbrev good : Attempt
good = record {
  input_ready = true;
  remaining = unlimited;
  request_made = true;
  run = responded (result answer);
  duration_valid = true;
  fits = true;
}

abbrev late : Attempt
late = record good { run = timed_out }

-- the same analyzer twice, of which the first times out
abbrev two : List (AnalyzerRegistration × Attempt)
two = (spectrum, late) ∷ (spectrum, good) ∷ []

abbrev task : AnalysisTask
task = fresh_task 1 "a1" 5 audio "s" 3 2

abbrev two_results : List AnalyzerResult
two_results =
    record answer { status = AnalyzerStatus.timeout }
    ∷ record answer { status = AnalyzerStatus.skipped }
    ∷ []

stopped :
    Orchestrator.execute 10 false prepared silent audio
      (record { registry_token = 2; obligations = []; completed = [] })
      true
      two
      tt
    ≡ returned two_results tt
unfolding Orchestrator.execute execute_plan valid_inputs execute_active effective_timeout accept_run
    accept_response has_identity failure_result is_failure
stopped = refl

executed_as_planned_example :
    (audio ≡ audio)
    × (all_labelled audio two two_results ≡ true)
    × (follows_policy false false two_results ≡ true)
executed_as_planned_example =
    executed_as_planned 10 false prepared silent audio
      (record { registry_token = 2; obligations = []; completed = [] }) true two tt stopped

abbrev analysing : AnalysisTask
analysing = record task {
  context = record task.context {
    status = AnalysisStatus.running;
    stage = ProcessingStage.analysis;
    started_at = some 7;
  };
  queued_at = some 6;
  route = some audio;
  execution_claimed = true;
}

abbrev ref : TaskRef
ref = record { analysis_id = "a1"; identity = 1 }

abbrev one : List (AnalyzerRegistration × Attempt)
one = (spectrum, good) ∷ []

one_result :
    Orchestrator.execute 10 false prepared silent audio
      (record { registry_token = 2; obligations = []; completed = [] })
      true
      one
      tt
    ≡ returned (answer ∷ []) tt
unfolding Orchestrator.execute execute_plan valid_inputs execute_active effective_timeout accept_run
    accept_response has_identity failure_result is_failure
one_result = refl

published_in_full_example :
    Orchestrator.execute 10 false prepared
      (append_to ref)
      audio
      (record { registry_token = 2; obligations = []; completed = [] })
      true
      one
      (with_results prepared [] analysing)
    ≡ returned (answer ∷ []) (with_results prepared (answer ∷ []) analysing)
unfolding require_stage5_task fresh_task all_different attempt_ids
published_in_full_example =
    published_in_full 10 false ref prepared analysing audio
      (record { registry_token = 2; obligations = []; completed = [] }) true one refl refl refl refl
      one_result

abbrev claimed : AnalysisTask
claimed = record analysing {
  context = record analysing.context { stage = ProcessingStage.preprocessing };
}

-- The clock answers its own count of reads.
abbrev services : Services
services = record {
  monotonic = λ n. some n;
  processing_timeout = 100;
  snapshot_id = "s";
  analyzers = registry;
  analyzer_timeout = 10;
  prepare = λ r. ok prepared;
  manifest_bound = true;
  attempts = λ p. one;
  form_findings = λ rs. ok [];
  assess =
      λ ids rs fs. ok (record { completeness = CompletenessStatus.complete; final_level = none });
}

abbrev start : Execution
start = record { task = claimed; published = []; reads = 0 }

abbrev assessed : AnalysisTask
assessed = record (with_results prepared (answer ∷ []) analysing) {
  context = record analysing.context { stage = ProcessingStage.risk_assessment };
  stage6_data = some (record { findings = [] });
  stage7_data = some (record { completeness = CompletenessStatus.complete; final_level = none });
}

completes :
    execute services ref start
    ≡ returned
        (succeeded AnalysisStatus.completed)
        (record { task = assessed; published = answer ∷ []; reads = 10 })
unfolding execute attempt process conclude read_results read_findings same_results same_result
    Orchestrator.execute execute_plan valid_inputs execute_active effective_timeout accept_run
    accept_response has_identity validate_stage5_execution publish_stage5_prepared prepared_fits
    start_stage5_analysis append_stage5_analyzer_result append_result publish_stage6_findings
    attach_findings start_stage7_assessment publish_stage7_assessment require_stage5_task transition
    project_context allowed fresh_task preprocessing_requirements aggregate declare closure expand
    any_spectrogram any_track all_forensic subset validate_media demands is_failure
    matches_registered_artifact plan_ids
completes = refl

execute_outcome_example :
    (from : ℕ) × (some 0 ≡ some from)
    × (outcome_accepted (succeeded AnalysisStatus.completed) ≡ true)
    × IsSettled services
        (from + 100)
        (succeeded AnalysisStatus.completed)
        (record { task = assessed; published = answer ∷ []; reads = 10 })
execute_outcome_example = execute_outcome services ref start completes

-- A preprocessing with a defect, whose exception no handler names.
abbrev defective : Services
defective = record services { prepare = λ r. err key_error }

escapes :
    execute defective ref start
    ≡ raised key_error (record { task = claimed; published = []; reads = 2 })
unfolding execute attempt process handle validate_stage5_execution require_stage5_task fresh_task
    preprocessing_requirements aggregate declare closure expand any_spectrogram any_track
    all_forensic subset validate_media demands plan_ids
escapes = refl

execute_catches_example : is_caught key_error ≡ false
execute_catches_example = execute_catches defective ref start escapes
