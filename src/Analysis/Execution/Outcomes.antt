-- ===== src/Analysis/Execution/Outcomes.antt =====
-- The outcomes of `execute` of fakedetector/lifecycle/_analysis_execution.py.
use fakedetector.Prelude.{
  ℕ, suc, ◌+◌, ◌<◌, Bool, true, false, not, Option, none, some, List, ◌≡◌, refl, sym, subst, arith,
  Result, ok, err, Error, guard, guard-ok, ltb, ◌⊎◌, inl, inr, Bool-cases, clock, str_eq,
  if◌then◌else◌, analyzer_infrastructure, analysis_assessment, deadline_exceeded,
  preprocessing_failed, analyzer_unreaped, finding_formation, lifecycle_state, timestamp_validation,
  duplicate_task, task_not_found, queue_state, scheduler_state, route_binding, clock_invariant,
  artifact_limit, artifact_write, negative_size, value_error, key_error, stage4_receiver,
  analyzer_configuration,
}
use fakedetector.Prelude.Runs.{
  Run, returned, raised, proceed, from_result, Returns, Raises, bind-Returns, given-Returns,
  given-returned, give,
}
use fakedetector.Domain.{ErrorDetail, CompletenessStatus, AnalyzerResult}
use fakedetector.Lifecycle.Task.{
  AnalysisTask, TaskRef, TaskExecutionOutcome, Stage7TaskData, outcome_accepted,
}
use fakedetector.Lifecycle.Staging.{
  publish_stage7_assessment, publish_stage6_findings, publish_stage5_prepared,
  start_stage5_analysis, start_stage7_assessment, validate_stage5_execution,
}
use fakedetector.Analysis.Registry.{active_analyzer_ids, preprocessing_requirements}
use fakedetector.Analysis.Execution.{
  Services, Execution, failed, outcome_for, is_not_assessed, same_results, read_results,
  read_findings, on_task, of_task, media_of, snapshot_of, remaining_timeout, check_answer, conclude,
  process, attempt, analyse, check_published, after_preprocessing, handle, rescue, started, execute,
  execution_failure,
}

-- An outcome that is not a failure stands on a published assessment, and on a look at the clock
-- before the deadline that came after it was made.
abbrev pub IsAssessed : Services → ℕ → TaskExecutionOutcome → Execution → Type 0
IsAssessed s deadline o w =
    (a : Stage7TaskData) × (n t : ℕ) × (w.task.stage7_data ≡ some a)
    × (is_not_assessed a.completeness ≡ false)
    × (o ≡ outcome_for a.completeness)
    × (w.reads ≡ suc n)
    × (s.monotonic n ≡ some t)
    × (t < deadline)

abbrev pub IsSettled : Services → ℕ → TaskExecutionOutcome → Execution → Type 0
IsSettled s deadline o w =
    ((e : ErrorDetail) × (b : Option ℕ) × (o ≡ failed e b)) ⊎ IsAssessed s deadline o w

-- the exceptions that the handlers name
unfoldable pub is_caught : Error → Bool
is_caught deadline_exceeded = true
is_caught (preprocessing_failed barrier limit) = true
is_caught analyzer_infrastructure = true
is_caught (analyzer_unreaped barrier) = true
is_caught finding_formation = true
is_caught analysis_assessment = true
is_caught _ = false

started_inv : (answer : Option ℕ) {now : ℕ} → started answer ≡ ok now → answer ≡ some now
started_inv none e = cc
started_inv (some t) e = cc

publishes :
    (ref : TaskRef) (a : Stage7TaskData) (t : AnalysisTask) {u : AnalysisTask}
    → publish_stage7_assessment ref a t ≡ ok u
    → u.stage7_data ≡ some a
unfolding publish_stage7_assessment
publishes ref a t e = ground arith

module _ (s : Services) (ref : TaskRef) (deadline : ℕ) where
  finish-Returns :
      (a : Stage7TaskData) (w : Execution) (n t : ℕ)
      → is_not_assessed a.completeness ≡ false
      → w.reads ≡ suc n
      → s.monotonic n ≡ some t
      → t < deadline
      → Returns (IsSettled s deadline) (
          proceed
            (on_task (publish_stage7_assessment ref a) w)
            (λ done v. returned (outcome_for a.completeness) v))
  finish-Returns a w n t assessed r m l = go (publish_stage7_assessment ref a w.task) refl
    where
      go :
          (made : Result AnalysisTask)
          → publish_stage7_assessment ref a w.task ≡ made
          → Returns (IsSettled s deadline) (
              proceed
                (proceed (from_result made w) (λ t v. returned tt (record v { task = t })))
                (λ done v. returned (outcome_for a.completeness) v))
      go (err x) e = tt
      go (ok u) e = inr (a, n, t, publishes ref a w.task e, assessed, refl, r, m, l)

  -- A last look at the clock, and the publication.
  checked-Returns :
      (a : Stage7TaskData) (w : Execution)
      → is_not_assessed a.completeness ≡ false
      → Returns (IsSettled s deadline) (
          proceed (remaining_timeout s ref deadline w) (λ done v.
            proceed
              (on_task (publish_stage7_assessment ref a) v)
              (λ done v. returned (outcome_for a.completeness) v)))
  checked-Returns a w assessed = go (s.monotonic w.reads) refl
    where
      go :
          (answer : Option ℕ)
          → s.monotonic w.reads ≡ answer
          → Returns (IsSettled s deadline) (
              proceed
                (check_answer s ref deadline answer (record w { reads = suc w.reads }))
                (λ done v.
                  proceed
                    (on_task (publish_stage7_assessment ref a) v)
                    (λ done v. returned (outcome_for a.completeness) v)))
      go none e = tt
      go (some now) e = elim (Bool-cases (ltb now deadline)) [
        | inl early ↦ rw early (
            finish-Returns a (record w { reads = suc w.reads }) w.reads now assessed refl e
              (ground (arith, early)))
        | inr late ↦ rw late tt
      ]

  conclude-Returns :
      (results : List AnalyzerResult) (w : Execution)
      → Returns (IsSettled s deadline) (conclude s ref deadline results w)
  unfolding conclude
  conclude-Returns results w =
      let P = IsSettled s deadline in
      bind-Returns P (of_task (read_results ref) w) _ (λ authoritative w.
        bind-Returns P
          (from_result (guard (same_results authoritative results) analyzer_infrastructure) w) _
          (λ same w. bind-Returns P (from_result (s.form_findings authoritative) w) _ (λ findings w.
            bind-Returns P (remaining_timeout s ref deadline w) _ (λ checked w.
              bind-Returns P (on_task (publish_stage6_findings ref findings) w) _ (λ published w.
                bind-Returns P (remaining_timeout s ref deadline w) _ (λ checked w.
                  bind-Returns P (of_task (read_results ref) w) _ (λ assessed w.
                    bind-Returns P (of_task (read_findings ref) w) _ (λ found w.
                      bind-Returns P (on_task (start_stage7_assessment ref) w) _ (λ entered w.
                        bind-Returns P (remaining_timeout s ref deadline w) _ (λ checked w.
                          bind-Returns P (of_task media_of w) _ (λ media w.
                            bind-Returns P
                              (from_result
                                (s.assess (active_analyzer_ids media s.analyzers) assessed found) w)
                              _
                              (λ assessment w.
                                given-Returns P
                                  (guard (not (is_not_assessed assessment.completeness))
                                    analysis_assessment)
                                  _ w
                                  (λ done e.
                                    checked-Returns assessment w
                                      (ground (arith, guard-ok _ _ e)))))))))))))))

  process-Returns : (w : Execution) → Returns (IsSettled s deadline) (process s ref deadline w)
  unfolding process
  process-Returns w =
      let P = IsSettled s deadline in
      bind-Returns P (remaining_timeout s ref deadline w) _ (λ checked w.
        bind-Returns P (of_task media_of w) _ (λ media w.
          bind-Returns P (from_result (preprocessing_requirements media s.analyzers) w) _
            (λ requirements w.
              bind-Returns P (from_result (s.prepare requirements) w) _ (λ prepared w.
                bind-Returns P (remaining_timeout s ref deadline w) _ (λ checked w.
                  bind-Returns P (on_task (publish_stage5_prepared ref prepared) w) _
                    (λ published w.
                      bind-Returns P (remaining_timeout s ref deadline w) _ (λ checked w.
                        bind-Returns P (on_task (start_stage5_analysis ref) w) _ (λ entered w.
                          bind-Returns P (remaining_timeout s ref deadline w) _ (λ checked w.
                            bind-Returns P (analyse s ref deadline prepared w) _ (λ results w.
                              bind-Returns P (check_published s ref deadline results w) _ (λ same w.
                                bind-Returns P (remaining_timeout s ref deadline w) _
                                  (λ checked w. conclude-Returns results w))))))))))))

  attempt-Returns : (w : Execution) → Returns (IsSettled s deadline) (attempt s ref deadline w)
  unfolding attempt
  attempt-Returns w =
      let P = IsSettled s deadline in
      bind-Returns P (on_task (validate_stage5_execution ref) w) _ (λ valid w.
        bind-Returns P (of_task snapshot_of w)
          (λ x.
            if str_eq x s.snapshot_id
            then process s ref deadline
            else give (failed execution_failure none))
          (λ snapshot w. elim (Bool-cases (str_eq snapshot s.snapshot_id)) [
            | inl same ↦ rw same (process-Returns w)
            | inr other ↦ rw other (inl (execution_failure, none, refl))
          ]))

  failure-Returns :
      (e : ErrorDetail) (b : Option ℕ) (w : Execution) → IsSettled s deadline (failed e b) w
  failure-Returns e b w = inl (e, b, refl)

  -- What the handlers return is a failure, and what they let pass is an exception that they do not
  -- name.
  after-Returns :
      (limit : Bool) (answer : Option ℕ) (w : Execution)
      → Returns
          (IsSettled s deadline)
          (after_preprocessing s ref deadline limit (check_answer s ref deadline answer w))
  after-Returns limit none w = tt
  after-Returns limit (some now) w = elim (Bool-cases (ltb now deadline)) [
    | inl early ↦ rw early (failure-Returns _ none w)
    | inr late ↦ rw late (failure-Returns _ none w)
  ]

  after-Raises :
      (limit : Bool) (answer : Option ℕ) (w : Execution)
      → Raises
          (λ x. is_caught x ≡ false)
          (after_preprocessing s ref deadline limit (check_answer s ref deadline answer w))
  unfolding is_caught
  after-Raises limit none w = refl
  after-Raises limit (some now) w = elim (Bool-cases (ltb now deadline)) [
    | inl early ↦ rw early tt
    | inr late ↦ rw late tt
  ]

  handle-Returns :
      (x : Error) (w : Execution) → Returns (IsSettled s deadline) (handle s ref deadline x w)
  unfolding handle
  handle-Returns deadline_exceeded w = failure-Returns _ none w
  handle-Returns (preprocessing_failed (some barrier) limit) w = failure-Returns _ (some barrier) w
  handle-Returns (preprocessing_failed none limit) w = after-Returns limit (s.monotonic w.reads) _
  handle-Returns analyzer_infrastructure w = failure-Returns _ none w
  handle-Returns (analyzer_unreaped barrier) w = failure-Returns _ (some barrier) w
  handle-Returns finding_formation w = failure-Returns _ none w
  handle-Returns analysis_assessment w = failure-Returns _ none w
  handle-Returns lifecycle_state w = tt
  handle-Returns timestamp_validation w = tt
  handle-Returns duplicate_task w = tt
  handle-Returns task_not_found w = tt
  handle-Returns queue_state w = tt
  handle-Returns scheduler_state w = tt
  handle-Returns route_binding w = tt
  handle-Returns clock w = tt
  handle-Returns clock_invariant w = tt
  handle-Returns artifact_limit w = tt
  handle-Returns artifact_write w = tt
  handle-Returns negative_size w = tt
  handle-Returns value_error w = tt
  handle-Returns key_error w = tt
  handle-Returns stage4_receiver w = tt
  handle-Returns analyzer_configuration w = tt

  handle-Raises :
      (x : Error) (w : Execution) → Raises (λ y. is_caught y ≡ false) (handle s ref deadline x w)
  unfolding handle is_caught
  handle-Raises deadline_exceeded w = tt
  handle-Raises (preprocessing_failed (some barrier) limit) w = tt
  handle-Raises (preprocessing_failed none limit) w = after-Raises limit (s.monotonic w.reads) _
  handle-Raises analyzer_infrastructure w = tt
  handle-Raises (analyzer_unreaped barrier) w = tt
  handle-Raises finding_formation w = tt
  handle-Raises analysis_assessment w = tt
  handle-Raises lifecycle_state w = refl
  handle-Raises timestamp_validation w = refl
  handle-Raises duplicate_task w = refl
  handle-Raises task_not_found w = refl
  handle-Raises queue_state w = refl
  handle-Raises scheduler_state w = refl
  handle-Raises route_binding w = refl
  handle-Raises clock w = refl
  handle-Raises clock_invariant w = refl
  handle-Raises artifact_limit w = refl
  handle-Raises artifact_write w = refl
  handle-Raises negative_size w = refl
  handle-Raises value_error w = refl
  handle-Raises key_error w = refl
  handle-Raises stage4_receiver w = refl
  handle-Raises analyzer_configuration w = refl

  rescue-Returns :
      (run : Run Execution TaskExecutionOutcome)
      → Returns (IsSettled s deadline) run
      → Returns (IsSettled s deadline) (rescue s ref deadline run)
  rescue-Returns (returned o w) h = h
  rescue-Returns (raised x w) h = handle-Returns x w

  rescue-Raises :
      (run : Run Execution TaskExecutionOutcome)
      → Raises (λ y. is_caught y ≡ false) (rescue s ref deadline run)
  rescue-Raises (returned o w) = tt
  rescue-Raises (raised x w) = handle-Raises x w

returns_inv :
    {V : Type 0} (P : V → Execution → Type 0) (run : Run Execution V) {o : V} {v : Execution}
    → Returns P run
    → run ≡ returned o v
    → P o v
returns_inv P run h e = subst (Returns P) e h

raises_inv :
    {V : Type 0} (P : Error → Type 0) (run : Run Execution V) {x : Error} {v : Execution}
    → Raises P run
    → run ≡ raised x v
    → P x
raises_inv P run h e = subst (Raises P) e h

accepted-outcome :
    (s : Services) (deadline : ℕ) (o : TaskExecutionOutcome) (w : Execution)
    → IsSettled s deadline o w
    → outcome_accepted o ≡ true
accepted-outcome s deadline o w (inl (e, b, same)) =
    subst (λ o. outcome_accepted o ≡ true) (sym same) refl
accepted-outcome s deadline o w (inr (a, n, t, _, assessed, same, _, _, _)) =
    subst (λ o. outcome_accepted o ≡ true) (sym same) (usable a.completeness)
  where
    usable : (c : CompletenessStatus) → outcome_accepted (outcome_for c) ≡ true
    usable CompletenessStatus.complete = refl
    usable CompletenessStatus.partial = refl
    usable CompletenessStatus.insufficient = refl
    usable CompletenessStatus.not_assessed = refl

-- An execution that returns had a start time from the clock, and its outcome is one that the
-- outcome's constructor accepts. It is a failure with one error, or it stands on the assessment that
-- the task holds: completed when that is complete, and partial when it is partial or insufficient.
-- Then the last time that was read of the clock is before the start plus the processing timeout.
pub execute_outcome :
    (s : Services) (ref : TaskRef) (w : Execution) {o : TaskExecutionOutcome} {v : Execution}
    → execute s ref w ≡ returned o v
    → (start : ℕ) × (s.monotonic w.reads ≡ some start)
      × (outcome_accepted o ≡ true)
      × IsSettled s (start + s.processing_timeout) o v
unfolding execute
execute_outcome s ref w {o} {v} e =
    let (start, at, e) = given-returned (started (s.monotonic w.reads)) _ _ e in
    let deadline = start + s.processing_timeout in
    let u : Execution = record w { reads = suc w.reads } in
    let settled =
      returns_inv (IsSettled s deadline) (rescue s ref deadline (attempt s ref deadline u))
        (rescue-Returns s ref deadline _ (attempt-Returns s ref deadline u)) e in
    (start, started_inv (s.monotonic w.reads) at, accepted-outcome s deadline o v settled, settled)

-- An execution never raises what its services raise by design: a deadline that has passed, a failed
-- preprocessing, an analyzer that could not be run or reaped, findings that could not be formed, or
-- an assessment that could not be made. Each of them becomes an outcome.
pub execute_catches :
    (s : Services) (ref : TaskRef) (w : Execution) {x : Error} {v : Execution}
    → execute s ref w ≡ raised x v
    → is_caught x ≡ false
unfolding execute is_caught
execute_catches s ref w {x} {v} e = go (s.monotonic w.reads) e
  where
    go :
        (answer : Option ℕ)
        → proceed (from_result (started answer) (record w { reads = suc w.reads })) (λ now v.
          rescue s ref (now + s.processing_timeout) (attempt s ref (now + s.processing_timeout) v))
          ≡ raised x v
        → is_caught x ≡ false
    go none e = raises_inv (λ y. is_caught y ≡ false) (raised clock _) refl e
    go (some now) e =
        raises_inv (λ y. is_caught y ≡ false) _
          (rescue-Raises s ref (now + s.processing_timeout)
            (attempt s ref (now + s.processing_timeout) (record w { reads = suc w.reads })))
          e
