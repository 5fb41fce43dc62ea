-- ===== src/Analysis/Orchestrator/Published.antt =====
-- What `execute` of fakedetector/analyzers/_orchestrator.py publishes.
use fakedetector.Prelude.{
  ℕ, Bool, true, false, ◌&&◌, ◌||◌, not, List, [], ◌∷◌, ◌++◌, ◌≡◌, refl, sym, ap, subst, ◌∙◌, arith,
  ok, guard, analyzer_infrastructure, bind-ok, then-ok, guard-ok, ok-injective, str_eq, eq_iff, leb,
  length, if◌then◌else◌,
}
use fakedetector.Prelude.Runs.{Action, returned, bind-returned, given-returned, returned_same}
use fakedetector.Domain.{
  MediaType, AnalyzerStatus, AnalyzerResult, same_media, is_analyzer_status, same_media_refl,
  same_media_eq,
}
use fakedetector.Lifecycle.Task.{PreparedMedia, WorkspaceArtifactRegistry}
use fakedetector.Analysis.Registry.{AnalyzerRegistration}
use fakedetector.Analysis.Orchestrator.{
  Attempt, WorkerRun, WorkerResponse, result, analyzer_error, serialization_error, worker_error,
  malformed, timed_out, responded, broken, unreaped, labelled, failure_result, has_identity,
  accept_response, accept_run, execute_active, effective_timeout, is_failure, outcome_of,
  stops_after, execute_plan, execute, valid_inputs,
}

-- The result carries the analyzer's identity and the media type.
unfoldable pub is_labelled : AnalyzerRegistration → MediaType → AnalyzerResult → Bool
is_labelled g media r =
    str_eq r.analyzer_id g.analyzer_id
    && str_eq r.analyzer_version g.analyzer_version
    && str_eq r.group g.group
    && same_media r.media_type media

-- One result for each analyzer of the plan, in its order.
unfoldable pub all_labelled :
    MediaType → List (AnalyzerRegistration × Attempt) → List AnalyzerResult → Bool
all_labelled media [] [] = true
all_labelled media [] (r ∷ rs) = false
all_labelled media (p ∷ plan) [] = false
all_labelled media (p ∷ plan) (r ∷ rs) = is_labelled p.0 media r && all_labelled media plan rs

abbrev is_skipped : AnalyzerResult → Bool
is_skipped r = is_analyzer_status r.status AnalyzerStatus.skipped

abbrev agree : Bool → Bool → Bool
agree true b = b
agree false b = not b

-- The skipped results are exactly those after the first failure, when failures stop the plan.
unfoldable pub follows_policy : Bool → Bool → List AnalyzerResult → Bool
follows_policy continues stopped [] = true
follows_policy continues stopped (r ∷ rs) =
    agree stopped (is_skipped r)
    && follows_policy continues (stopped || (is_failure r && not continues)) rs

labelled_lem :
    (status : AnalyzerStatus) (g : AnalyzerRegistration) (m : MediaType)
    → is_labelled g m (labelled status g m) ≡ true
unfolding is_labelled
labelled_lem status g m = ground (
  arith,
  same_media_refl m,
  eq_iff g.analyzer_id g.analyzer_id,
  eq_iff g.analyzer_version g.analyzer_version,
  eq_iff g.group g.group,
)

abbrev Fresh : AnalyzerRegistration → MediaType → AnalyzerResult → Type 0
Fresh g m r = (is_labelled g m r ≡ true) × (is_skipped r ≡ false)

failure-Fresh :
    (timeout : Bool) (g : AnalyzerRegistration) (m : MediaType)
    → Fresh g m (failure_result timeout g m)
unfolding failure_result
failure-Fresh true g m = (labelled_lem AnalyzerStatus.timeout g m, refl)
failure-Fresh false g m = (labelled_lem AnalyzerStatus.error g m, refl)

usable_not_skipped :
    (s : AnalyzerStatus)
    → (is_analyzer_status s AnalyzerStatus.completed
        || is_analyzer_status s AnalyzerStatus.not_applicable)
      ≡ true
    → is_analyzer_status s AnalyzerStatus.skipped ≡ false
usable_not_skipped AnalyzerStatus.completed h = refl
usable_not_skipped AnalyzerStatus.skipped h = cc
usable_not_skipped AnalyzerStatus.not_applicable h = refl
usable_not_skipped AnalyzerStatus.error h = refl
usable_not_skipped AnalyzerStatus.timeout h = refl

identity-Fresh :
    (r : AnalyzerResult) (g : AnalyzerRegistration) (m : MediaType)
    → has_identity r g m ≡ true
    → Fresh g m r
unfolding has_identity is_labelled
identity-Fresh r g m h =
    let usable : (is_analyzer_status r.status AnalyzerStatus.completed
          || is_analyzer_status r.status AnalyzerStatus.not_applicable)
        ≡ true =
      ground arith in
    (ground arith, usable_not_skipped r.status usable)

chosen-Fresh :
    (fits : Bool) (r : AnalyzerResult) (g : AnalyzerRegistration) (m : MediaType)
    → Fresh g m r
    → Fresh g m (if fits then r else failure_result false g m)
chosen-Fresh true r g m h = h
chosen-Fresh false r g m h = failure-Fresh false g m

response-Fresh :
    (a : Attempt) (g : AnalyzerRegistration) (m : MediaType) (w : WorkerResponse)
    {r : AnalyzerResult}
    → accept_response a g m w ≡ ok r
    → Fresh g m r
unfolding accept_response
response-Fresh a g m (result x) e =
    let (identity, e) = then-ok (guard (has_identity x g m) analyzer_infrastructure) _ e in
    let (_, e) = then-ok (guard a.duration_valid analyzer_infrastructure) _ e in
    subst (Fresh g m) (sym (ok-injective e))
      (chosen-Fresh a.fits x g m (identity-Fresh x g m (guard-ok _ _ identity)))
response-Fresh a g m analyzer_error e =
    subst (Fresh g m) (sym (ok-injective e)) (failure-Fresh false g m)
response-Fresh a g m serialization_error e =
    subst (Fresh g m) (sym (ok-injective e)) (failure-Fresh false g m)
response-Fresh a g m worker_error e = cc
response-Fresh a g m malformed e = cc

run-Fresh :
    (a : Attempt) (g : AnalyzerRegistration) (m : MediaType) (w : WorkerRun) {r : AnalyzerResult}
    → accept_run a g m w ≡ ok r
    → Fresh g m r
unfolding accept_run
run-Fresh a g m timed_out e = subst (Fresh g m) (sym (ok-injective e)) (failure-Fresh true g m)
run-Fresh a g m (responded w) e = response-Fresh a g m w e
run-Fresh a g m broken e = cc
run-Fresh a g m (unreaped barrier) e = cc

active-Fresh :
    (configured : ℕ) (g : AnalyzerRegistration) (p : PreparedMedia) (a : Attempt)
    {r : AnalyzerResult}
    → execute_active configured g p a ≡ ok r
    → Fresh g p.media_type r
unfolding execute_active
active-Fresh configured g p a e =
    let (_, e) = then-ok (guard (leb (length p.artifacts) 256) analyzer_infrastructure) _ e in
    let (_, e) = then-ok (guard a.input_ready analyzer_infrastructure) _ e in
    let (_, _, e) = bind-ok (effective_timeout configured a.remaining) _ e in
    let (_, e) = then-ok (guard a.request_made analyzer_infrastructure) _ e in
    run-Fresh a g p.media_type a.run e

valid_inputs-media :
    (m : MediaType) (artifacts : WorkspaceArtifactRegistry) (bound : Bool) (p : PreparedMedia)
    → valid_inputs m artifacts bound p ≡ true
    → p.media_type ≡ m
unfolding valid_inputs
valid_inputs-media m artifacts bound p e = same_media_eq p.media_type m (ground arith)

append_nil : (xs : List AnalyzerResult) → xs ++ [] ≡ xs
append_nil [] = refl
append_nil (x ∷ xs) = ap (λ t. x ∷ t) (append_nil xs)

append_snoc :
    (xs : List AnalyzerResult) (y : AnalyzerResult) (zs : List AnalyzerResult)
    → (xs ++ y ∷ []) ++ zs ≡ xs ++ y ∷ zs
append_snoc [] y zs = refl
append_snoc (x ∷ xs) y zs = ap (λ t. x ∷ t) (append_snoc xs y zs)

module _ {State : Type 0} (configured : ℕ) (continue_on_failure : Bool) (prepared : PreparedMedia)
    (publish : AnalyzerResult → Action State (Unit {0})) where
  pub outcome_lem :
      (stopped : Bool) (g : AnalyzerRegistration) (a : Attempt) {r : AnalyzerResult}
      → outcome_of configured continue_on_failure prepared publish stopped g a ≡ ok r
      → (is_labelled g prepared.media_type r ≡ true) × (agree stopped (is_skipped r) ≡ true)
  outcome_lem true g a e =
      subst (λ r. (is_labelled g prepared.media_type r ≡ true) × (is_skipped r ≡ true))
        (sym (ok-injective e)) (labelled_lem AnalyzerStatus.skipped g prepared.media_type, refl)
  outcome_lem false g a e =
      let (labels, runs) = active-Fresh configured g prepared a e in (labels, ground arith)

  plan_lem :
      (stopped : Bool) (results : List AnalyzerResult)
      (plan : List (AnalyzerRegistration × Attempt)) (w : State) {rs : List AnalyzerResult}
      {v : State}
      → execute_plan configured continue_on_failure prepared publish stopped results plan w
        ≡ returned rs v
      → (more : List AnalyzerResult) × (rs ≡ results ++ more)
        × (all_labelled prepared.media_type plan more ≡ true)
        × (follows_policy continue_on_failure stopped more ≡ true)
  unfolding execute_plan all_labelled follows_policy
  plan_lem stopped results [] w e = ([], returned_same e ∙ sym (append_nil results), refl, refl)
  plan_lem stopped results ((g, a) ∷ plan) w {rs} {v} e =
      let (r, made, e) =
        given-returned (outcome_of configured continue_on_failure prepared publish stopped g a) _ w
          e in
      let (_, u, _, e) = bind-returned (publish r w) _ e in
      let next = stops_after configured continue_on_failure prepared publish stopped r in
      let (labels, policy) = outcome_lem stopped g a made in
      let (more, same, all, follows) = plan_lem next (results ++ r ∷ []) plan u e in
      (r ∷ more, same ∙ append_snoc results r more, rw labels all, rw policy follows)

-- When `execute` returns, its results are one for each analyzer of the plan, in the plan's order,
-- each with its analyzer's identity and the media type of the prepared media. None is skipped up to
-- the first error or timeout, and after it all are skipped, unless the configuration continues
-- after failures: then none is skipped.
pub executed_as_planned :
    {State : Type 0} (configured : ℕ) (continue_on_failure : Bool) (prepared : PreparedMedia)
    (publish : AnalyzerResult → Action State (Unit {0})) (validated_media : MediaType)
    (artifacts : WorkspaceArtifactRegistry) (manifest_bound : Bool)
    (plan : List (AnalyzerRegistration × Attempt)) (w : State) {rs : List AnalyzerResult}
    {v : State}
    → execute configured continue_on_failure prepared publish validated_media artifacts
        manifest_bound plan w
      ≡ returned rs v
    → (prepared.media_type ≡ validated_media)
      × (all_labelled prepared.media_type plan rs ≡ true)
      × (follows_policy continue_on_failure false rs ≡ true)
unfolding execute
executed_as_planned configured continues prepared publish validated artifacts bound plan w e =
    let (_, allowed, e) =
      given-returned
        (guard (valid_inputs validated artifacts bound prepared) analyzer_infrastructure) _ w e in
    let (more, same, all, follows) =
      plan_lem configured continues prepared publish false [] plan w e in
    (
      valid_inputs-media validated artifacts bound prepared (guard-ok _ _ allowed),
      subst (λ r. all_labelled prepared.media_type plan r ≡ true) (sym same) all,
      subst (λ r. follows_policy continues false r ≡ true) (sym same) follows,
    )
