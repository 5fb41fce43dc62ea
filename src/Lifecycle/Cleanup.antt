-- ===== src/Lifecycle/Cleanup.antt =====
-- `WorkspaceCleanup` of fakedetector/lifecycle/cleanup.py, whose `record_progress` is the registry's
-- `record_cleanup_progress`. What the physical operations do is an argument.
pub mod Held
pub mod Acceptance
use fakedetector.Prelude.{
  ℕ, zero, suc, ◌+◌, ◌-◌, Bool, true, false, ◌&&◌, ◌||◌, not, Option, none, some, List, [], ◌∷◌,
  Result, ok, ◌>>=◌, if◌then◌else◌,
}
use fakedetector.Domain.{CleanupStatus, ErrorDetail}
use fakedetector.Lifecycle.Task.{AnalysisTask, CleanupFacts, TerminalSettlement}
use fakedetector.Lifecycle.Settlement.{Progress, record_cleanup_progress}

-- What `accepted_source.cleanup()` does: it returns, it raises TemporaryInputCleanupError with its
-- two facts, or it raises another exception.
pub data SourceCleanup : Type 0 where
  cleaned raised : SourceCleanup
  incomplete : (original_deleted intermediate_deleted : Bool) → SourceCleanup

-- The outcomes of the physical operations. The attempts are numbered by how many are left after
-- them. `artifacts` is what `cleanup_once` reports, false if it raises; `quarantine` says that
-- `_quarantine` returned.
pub record Operations : Type 0 where
  pub artifacts : ℕ → Bool
  pub source : ℕ → SourceCleanup
  pub quarantine : Bool

pub record CleanupConfig : Type 0 where
  pub cleanup_retries : ℕ
  pub quarantine_enabled : Bool

-- The local variables of `cleanup_task`.
pub record Outstanding : Type 0 where
  pub original_deleted : Bool
  pub artifact_cleanup_completed : Bool
  pub intermediate_deleted : Bool

abbrev pub all_deleted : Outstanding → Bool
all_deleted l = l.original_deleted && l.intermediate_deleted

-- record_progress without a decision on the quarantine
abbrev pub noted : Outstanding → Bool → Progress
noted l attempt_completed = record {
  original_file_deleted = l.original_deleted;
  artifact_cleanup_completed = some l.artifact_cleanup_completed;
  intermediate_files_deleted = l.intermediate_deleted;
  attempt_completed = attempt_completed;
  quarantine_used = false;
  quarantine_decided = none;
}

-- record_progress with quarantine_decided=True
abbrev pub decided : Outstanding → Bool → Progress
decided l used = record {
  original_file_deleted = l.original_deleted;
  artifact_cleanup_completed = some l.artifact_cleanup_completed;
  intermediate_files_deleted = l.intermediate_deleted;
  attempt_completed = false;
  quarantine_used = used;
  quarantine_decided = some true;
}

unfoldable pub facts_status : Bool → Bool → CleanupStatus
facts_status original intermediate =
    if original && intermediate
    then CleanupStatus.completed
    else if original || intermediate
    then CleanupStatus.partial
    else CleanupStatus.failed

-- _facts; the one error is `_cleanup_error()`
abbrev pub facts : ErrorDetail → Bool → Bool → Bool → CleanupFacts
facts cleanup_error original intermediate used = record {
  status = facts_status original intermediate;
  original_file_deleted = original;
  intermediate_files_deleted = intermediate;
  quarantine_used = used;
  errors = if original && intermediate then [] else cleanup_error ∷ [];
}

-- (original_deleted, source_intermediates_deleted) after the source's cleanup
abbrev pub after_source : SourceCleanup → Bool → Bool × Bool
after_source cleaned original = (true, true)
after_source raised original = (original, false)
after_source (incomplete o i) original = (original || o, i)

-- the locals of an attempt after its operation on the artifacts, and after the one on the source
unfoldable pub with_artifacts : Operations → ℕ → Outstanding → Outstanding
with_artifacts ops k l = record l {
  artifact_cleanup_completed = if l.artifact_cleanup_completed then true else ops.artifacts k;
}

unfoldable pub with_source : Operations → ℕ → Outstanding → Outstanding
with_source ops k l =
    let after =
      if not l.original_deleted || not l.intermediate_deleted
      then after_source (ops.source k) l.original_deleted
      else (l.original_deleted, false) in
    record l {
      original_deleted = after.0;
      intermediate_deleted = l.artifact_cleanup_completed && after.1;
    }

module _ (token : ℕ) (ops : Operations) where
  unfoldable pub note_artifacts : ℕ → Outstanding → AnalysisTask → Result AnalysisTask
  note_artifacts k l task =
      if l.artifact_cleanup_completed
      then ok task
      else record_cleanup_progress token (noted (with_artifacts ops k l) false) task

  -- an iteration of the loop up to its second progress record
  unfoldable pub attempt : ℕ → Outstanding → AnalysisTask → Result (Outstanding × AnalysisTask)
  attempt k l task = do
    task ← note_artifacts k l task
    let after = with_source ops k (with_artifacts ops k l)
    task ← record_cleanup_progress token (noted after true) task
    ok (after, task)

  -- The loop, with the number of attempts that are left; the Boolean says that all was deleted and
  -- that the decision against the quarantine is recorded.
  unfoldable pub attempts :
      ℕ → Outstanding → AnalysisTask → Result (Bool × Outstanding × AnalysisTask)
  attempts zero l task = ok (false, l, task)
  attempts (suc k) l task = do
    after ← attempt k l task
    elim (all_deleted after.0) [
      | true ↦ do
        task ← record_cleanup_progress token (decided after.0 false) after.1
        ok (true, after.0, task)
      | false ↦ attempts k after.0 after.1
    ]

  unfoldable pub quarantine_step :
      CleanupConfig → TerminalSettlement → Outstanding → AnalysisTask → Result (Bool × AnalysisTask)
  quarantine_step config settlement l task =
      if settlement.quarantine_decided then ok (settlement.quarantine_used, task) else (do
        let used = if config.quarantine_enabled then ops.quarantine else settlement.quarantine_used
        task ← record_cleanup_progress token (decided l used) task
        ok (used, task))

  -- cleanup_task; `released` is what `task.accepted_source.is_released` answers
  unfoldable pub cleanup_task :
      CleanupConfig
      → ErrorDetail
      → Bool
      → TerminalSettlement
      → AnalysisTask
      → Result (CleanupFacts × AnalysisTask)
  cleanup_task config cleanup_error released settlement task =
      let start : Outstanding = record {
        original_deleted = settlement.original_file_deleted || released;
        artifact_cleanup_completed = settlement.artifact_cleanup_completed;
        intermediate_deleted = settlement.intermediate_files_deleted;
      } in
      elim (all_deleted start) [
        | true ↦ ok (facts cleanup_error true true settlement.quarantine_used, task)
        | false ↦ do
          tried ← attempts ((1 + config.cleanup_retries) - settlement.attempts_completed) start task
          elim tried.0 [
            | true ↦ ok (facts cleanup_error true true false, tried.2)
            | false ↦ do
              last ← quarantine_step config settlement tried.1 tried.2
              ok (
                facts cleanup_error (Outstanding.original_deleted tried.1)
                    (Outstanding.intermediate_deleted tried.1) last.0,
                last.1,
              )
          ]
      ]
