-- ===== src/Analysis/Orchestrator/Appended.antt =====
-- That the task takes every result which `execute` of fakedetector/analyzers/_orchestrator.py
-- publishes, as fakedetector/lifecycle/_analysis_execution.py has it appended.
use fakedetector.Prelude.{
  ℕ, String, Bool, true, false, ◌&&◌, ◌||◌, not, none, some, List, [], ◌∷◌, ◌++◌, ◌≡◌, refl, sym,
  subst, ◌∙◌, arith, guard, analyzer_infrastructure, str_eq, eq_iff, contains,
}
use fakedetector.Prelude.Runs.{
  Action, returned, proceed, from_result, given-returned, returned_same,
}
use fakedetector.Domain.{
  MediaType, ProcessingStage, AnalyzerResult, same_media, same_media_refl, same_media_eq,
}
use fakedetector.Lifecycle.Task.{AnalysisTask, TaskRef, PreparedMedia, WorkspaceArtifactRegistry}
use fakedetector.Lifecycle.Staging.{
  append_stage5_analyzer_result, append_result, require_stage5_task, has_analyzer,
}
use fakedetector.Analysis.Registry.{AnalyzerRegistration, all_different}
use fakedetector.Analysis.Orchestrator.{
  Attempt, outcome_of, stops_after, execute_plan, execute, valid_inputs,
}
use fakedetector.Analysis.Orchestrator.Published.{outcome_lem, is_labelled}

-- publish_result of the execution
abbrev pub append_to : TaskRef → AnalyzerResult → Action AnalysisTask (Unit {0})
append_to ref r task =
    proceed (from_result (append_stage5_analyzer_result ref r task) task)
      (λ changed t. returned tt changed)

-- an orchestrator without a callback
abbrev pub silent : AnalyzerResult → Action (Unit {0}) (Unit {0})
silent r w = returned tt w

abbrev pub with_results : PreparedMedia → List AnalyzerResult → AnalysisTask → AnalysisTask
with_results p rs task = record task {
  stage5_data = some (record { prepared_media = p; analyzer_results = rs });
}

has_analyzer-append :
    (id : String) (r : AnalyzerResult) (rs : List AnalyzerResult)
    → has_analyzer id (rs ++ r ∷ []) ≡ (has_analyzer id rs || str_eq r.analyzer_id id)
has_analyzer-append id r [] = ground arith
has_analyzer-append id r (x ∷ rs) = ground (arith, has_analyzer-append id r rs)

unfoldable pub attempt_ids : List (AnalyzerRegistration × Attempt) → List String
attempt_ids [] = []
attempt_ids (p ∷ plan) = p.0.analyzer_id ∷ attempt_ids plan

-- no analyzer of the plan has published yet
none_published : List (AnalyzerRegistration × Attempt) → List AnalyzerResult → Bool
none_published [] rs = true
none_published (p ∷ plan) rs = not (has_analyzer p.0.analyzer_id rs) && none_published plan rs

none_published-start :
    (plan : List (AnalyzerRegistration × Attempt)) → none_published plan [] ≡ true
unfolding none_published
none_published-start [] = refl
none_published-start (p ∷ plan) = none_published-start plan

none_published-next :
    (plan : List (AnalyzerRegistration × Attempt)) (r : AnalyzerResult) (rs : List AnalyzerResult)
    → none_published plan rs ≡ true
    → contains (attempt_ids plan) r.analyzer_id ≡ false
    → none_published plan (rs ++ r ∷ []) ≡ true
unfolding none_published attempt_ids
none_published-next [] r rs h k = refl
none_published-next (p ∷ plan) r rs h k = ground (
  arith,
  has_analyzer-append p.0.analyzer_id r rs,
  none_published-next plan r rs,
  eq_iff r.analyzer_id p.0.analyzer_id,
  eq_iff p.0.analyzer_id r.analyzer_id,
)

labelled_parts :
    (g : AnalyzerRegistration) (m : MediaType) (r : AnalyzerResult)
    → is_labelled g m r ≡ true
    → (r.analyzer_id ≡ g.analyzer_id) × (r.media_type ≡ m)
unfolding is_labelled
labelled_parts g m r h =
    let media : same_media r.media_type m ≡ true = ground arith in
    (ground (arith, eq_iff r.analyzer_id g.analyzer_id), same_media_eq r.media_type m media)

append_runs :
    (ref : TaskRef) (p : PreparedMedia) (task : AnalysisTask) (rs : List AnalyzerResult)
    (r : AnalyzerResult)
    → require_stage5_task ref ProcessingStage.analysis task ≡ true
    → task.stage6_data ≡ none
    → r.media_type ≡ task.context.media_type
    → has_analyzer r.analyzer_id rs ≡ false
    → append_to ref r (with_results p rs task) ≡ returned tt (with_results p (rs ++ r ∷ []) task)
unfolding append_stage5_analyzer_result append_result require_stage5_task
append_runs ref p task rs r live free media fresh =
    rw (live, free, media, same_media_refl task.context.media_type, fresh) refl

module _ (configured : ℕ) (continue_on_failure : Bool) (ref : TaskRef) (p : PreparedMedia)
    (task : AnalysisTask) (live : require_stage5_task ref ProcessingStage.analysis task ≡ true)
    (free : task.stage6_data ≡ none) (media : p.media_type ≡ task.context.media_type) where
  appended_plan :
      (stopped : Bool) (results : List AnalyzerResult)
      (plan : List (AnalyzerRegistration × Attempt)) {rs : List AnalyzerResult} {v : Unit {0}}
      → all_different (attempt_ids plan) ≡ true
      → none_published plan results ≡ true
      → execute_plan configured continue_on_failure p silent stopped results plan tt ≡ returned rs v
      → execute_plan configured continue_on_failure p
          (append_to ref)
          stopped
          results
          plan
          (with_results p results task)
        ≡ returned rs (with_results p rs task)
  unfolding execute_plan all_different none_published attempt_ids
  appended_plan stopped results [] d n e =
      subst
        (λ rs.
          returned results (with_results p results task) ≡ returned rs (with_results p rs task))
        (sym (returned_same e)) refl
  appended_plan stopped results ((g, a) ∷ plan) d n e =
      let (r, made, e) =
        given-returned (outcome_of configured continue_on_failure p silent stopped g a) _ tt e in
      let (labels, _) = outcome_lem configured continue_on_failure p silent stopped g a made in
      let (named, typed) = labelled_parts g p.media_type r labels in
      let fresh : has_analyzer r.analyzer_id results ≡ false = rw named (ground arith) in
      let apart : contains (attempt_ids plan) r.analyzer_id ≡ false = rw named (ground arith) in
      let now = append_runs ref p task results r live free (typed ∙ media) fresh in
      let next = none_published-next plan r results (ground arith) apart in
      let rest =
        appended_plan (stops_after configured continue_on_failure p silent stopped r)
          (results ++ r ∷ []) plan (ground arith) next e in
      rw (made, now) rest

-- A task in the analysis, with its prepared media and no result yet, takes every result that the
-- orchestrator publishes when the plan names each analyzer once: `execute` with the task's callback
-- returns what it returns without one, and leaves the task with exactly those results.
pub published_in_full :
    (configured : ℕ) (continue_on_failure : Bool) (ref : TaskRef) (p : PreparedMedia)
    (task : AnalysisTask) (validated_media : MediaType) (artifacts : WorkspaceArtifactRegistry)
    (manifest_bound : Bool) (plan : List (AnalyzerRegistration × Attempt))
    {rs : List AnalyzerResult} {v : Unit {0}}
    → require_stage5_task ref ProcessingStage.analysis task ≡ true
    → task.stage6_data ≡ none
    → p.media_type ≡ task.context.media_type
    → all_different (attempt_ids plan) ≡ true
    → execute configured continue_on_failure p silent validated_media artifacts manifest_bound plan
        tt
      ≡ returned rs v
    → execute configured continue_on_failure p
        (append_to ref)
        validated_media
        artifacts
        manifest_bound
        plan
        (with_results p [] task)
      ≡ returned rs (with_results p rs task)
unfolding execute
published_in_full configured continues ref p task validated artifacts bound plan live free media d
      e =
    let (_, allowed, e) =
      given-returned (guard (valid_inputs validated artifacts bound p) analyzer_infrastructure) _ tt
        e in
    let whole =
      appended_plan configured continues ref p task live free media false [] plan d
        (none_published-start plan) e in
    rw allowed whole
