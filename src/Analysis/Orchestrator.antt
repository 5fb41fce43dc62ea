-- ===== src/Analysis/Orchestrator.antt =====
-- `AnalyzerOrchestrator` of fakedetector/analyzers/_orchestrator.py: the analyzers of a plan, one
-- after the other. What a worker process does, and what the file system and the serializer answer,
-- is an argument: an attempt for each analyzer.
pub mod Published
pub mod Appended
use fakedetector.Prelude.{
  ℕ, String, Bool, true, false, ◌&&◌, ◌||◌, not, Option, none, some, List, [], ◌∷◌, ◌++◌, Result,
  ok, err, analyzer_infrastructure, analyzer_unreaped, Error, guard, ◌>>=◌, ◌>>◌, str_eq, leb, ltb,
  ◌==◌, length, if◌then◌else◌,
}
use fakedetector.Prelude.Runs.{Action, returned, proceed, from_result}
use fakedetector.Domain.{MediaType, AnalyzerStatus, AnalyzerResult, same_media, is_analyzer_status}
use fakedetector.Lifecycle.Task.{
  PreparedMedia, WorkspaceArtifactRegistry, matches_registered_artifact,
}
use fakedetector.Lifecycle.Staging.{all_match}
use fakedetector.Analysis.Registry.{AnalyzerRegistration}

-- What the callback of the remaining time answers: microseconds, or a value that is no positive
-- finite number, or the exception that it raises.
pub data Remaining : Type 0 where
  unlimited : Remaining
  left : ℕ → Remaining
  invalid : Remaining
  raises : Error → Remaining

-- The decoded response of a worker.
pub data WorkerResponse : Type 0 where
  result : AnalyzerResult → WorkerResponse
  analyzer_error serialization_error worker_error malformed : WorkerResponse

-- How the run of a worker ended; `unreaped` is the runner's error with a cleanup safety barrier.
pub data WorkerRun : Type 0 where
  timed_out : WorkerRun
  responded : WorkerResponse → WorkerRun
  broken : WorkerRun
  unreaped : (barrier : ℕ) → WorkerRun

-- One analyzer's run: whether its input and its request could be made, the time that is left, the
-- run, and whether the result with its duration is valid and fits the transport.
pub record Attempt : Type 0 where
  pub input_ready : Bool
  pub remaining : Remaining
  pub request_made : Bool
  pub run : WorkerRun
  pub duration_valid : Bool
  pub fits : Bool

abbrev smaller : ℕ → ℕ → ℕ
smaller a b = if leb a b then a else b

unfoldable pub effective_timeout : ℕ → Remaining → Result ℕ
effective_timeout configured unlimited = ok configured
effective_timeout configured (left time) =
    if time == 0 then err analyzer_infrastructure else ok (smaller configured time)
effective_timeout configured invalid = err analyzer_infrastructure
effective_timeout configured (raises exception) = err exception

abbrev pub labelled : AnalyzerStatus → AnalyzerRegistration → MediaType → AnalyzerResult
labelled status g media = record {
  analyzer_id = g.analyzer_id;
  analyzer_version = g.analyzer_version;
  media_type = media;
  group = g.group;
  status = status;
  applicable = true;
}

-- _skipped_result
abbrev pub skipped_result : AnalyzerRegistration → MediaType → AnalyzerResult
skipped_result g media = labelled AnalyzerStatus.skipped g media

-- _failure_result
unfoldable pub failure_result : Bool → AnalyzerRegistration → MediaType → AnalyzerResult
failure_result timeout g media =
    labelled (if timeout then AnalyzerStatus.timeout else AnalyzerStatus.error) g media

-- _validate_result_identity, by whether it returns
unfoldable pub has_identity : AnalyzerResult → AnalyzerRegistration → MediaType → Bool
has_identity r g media =
    str_eq r.analyzer_id g.analyzer_id
    && str_eq r.analyzer_version g.analyzer_version
    && str_eq r.group g.group
    && same_media r.media_type media
    && (is_analyzer_status r.status AnalyzerStatus.completed
        || is_analyzer_status r.status AnalyzerStatus.not_applicable)
    && (not (is_analyzer_status r.status AnalyzerStatus.completed) || r.applicable)

-- _run_with_paths from the response on
unfoldable pub accept_response :
    Attempt → AnalyzerRegistration → MediaType → WorkerResponse → Result AnalyzerResult
unfolding has_identity failure_result
accept_response a g media (result r) = do
  guard (has_identity r g media) analyzer_infrastructure
  guard a.duration_valid analyzer_infrastructure
  ok (if a.fits then r else failure_result false g media)
accept_response a g media analyzer_error = ok (failure_result false g media)
accept_response a g media serialization_error = ok (failure_result false g media)
accept_response a g media worker_error = err analyzer_infrastructure
accept_response a g media malformed = err analyzer_infrastructure

unfoldable pub accept_run :
    Attempt → AnalyzerRegistration → MediaType → WorkerRun → Result AnalyzerResult
unfolding accept_response failure_result
accept_run a g media timed_out = ok (failure_result true g media)
accept_run a g media (responded response) = accept_response a g media response
accept_run a g media broken = err analyzer_infrastructure
accept_run a g media (unreaped barrier) = err (analyzer_unreaped barrier)

-- _execute_active with _run_with_paths
unfoldable pub execute_active :
    ℕ → AnalyzerRegistration → PreparedMedia → Attempt → Result AnalyzerResult
unfolding effective_timeout accept_run
execute_active configured g prepared a = do
  guard (leb (length prepared.artifacts) 256) analyzer_infrastructure
  guard a.input_ready analyzer_infrastructure
  timeout ← effective_timeout configured a.remaining
  guard a.request_made analyzer_infrastructure
  accept_run a g prepared.media_type a.run

unfoldable pub is_failure : AnalyzerResult → Bool
is_failure r =
    is_analyzer_status r.status AnalyzerStatus.error
    || is_analyzer_status r.status AnalyzerStatus.timeout

-- _validate_inputs, by whether it returns; `manifest_bound` is the answer of the forensic manifest
unfoldable pub valid_inputs : MediaType → WorkspaceArtifactRegistry → Bool → PreparedMedia → Bool
valid_inputs validated_media artifacts manifest_bound prepared =
    same_media prepared.media_type validated_media
    && manifest_bound
    && all_match (matches_registered_artifact artifacts) prepared.artifacts

-- The result callback works on a state of its own, and may raise.
module _ {State : Type 0} (configured : ℕ) (continue_on_failure : Bool) (prepared : PreparedMedia)
    (publish : AnalyzerResult → Action State (Unit {0})) where
  abbrev pub outcome_of : Bool → AnalyzerRegistration → Attempt → Result AnalyzerResult
  outcome_of stopped g a =
      if stopped
      then ok (skipped_result g prepared.media_type)
      else execute_active configured g prepared a

  abbrev pub stops_after : Bool → AnalyzerResult → Bool
  stops_after stopped r = stopped || (is_failure r && not continue_on_failure)

  -- the loop of `execute`; `results` are those that it has appended
  unfoldable pub execute_plan :
      Bool
      → List AnalyzerResult
      → List (AnalyzerRegistration × Attempt)
      → Action State (List AnalyzerResult)
  execute_plan stopped results [] w = returned results w
  execute_plan stopped results ((g, a) ∷ plan) w =
      proceed (from_result (outcome_of stopped g a) w) (λ r v.
        proceed (publish r v)
          (λ done. execute_plan (stops_after stopped r) (results ++ r ∷ []) plan))

  unfoldable pub execute :
      MediaType
      → WorkspaceArtifactRegistry
      → Bool
      → List (AnalyzerRegistration × Attempt)
      → Action State (List AnalyzerResult)
  unfolding valid_inputs execute_plan
  execute validated_media artifacts manifest_bound plan w =
      proceed
        (from_result
          (guard (valid_inputs validated_media artifacts manifest_bound prepared)
            analyzer_infrastructure)
          w)
        (λ done. execute_plan false [] plan)
