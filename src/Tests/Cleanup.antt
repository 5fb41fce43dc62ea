-- ===== src/Tests/Cleanup.antt =====
-- The cleanup of a task (fakedetector/lifecycle/cleanup.py) whose source cannot be removed.
use fakedetector.Prelude.{◌≡◌, refl, true, false, none, some, ok}
use fakedetector.Domain.{AnalysisStatus, ProcessingStage, ErrorDetail, audio}
use fakedetector.Lifecycle.Task.{
  AnalysisTask, CleanupFacts, TerminalSettlement, TerminalSettlementPhase, fresh_task,
}
use fakedetector.Lifecycle.Settlement.{mark_terminal_facts_ready, owned_settlement}
use fakedetector.Lifecycle.Cleanup.{CleanupConfig, Operations, raised, cleanup_task}
use fakedetector.Lifecycle.Cleanup.Acceptance.{cleanup_accepted}

abbrev settlement : TerminalSettlement
settlement = record {
  identity = 3;
  phase = TerminalSettlementPhase.cleanup_in_progress;
  owner_token = some 3;
  cleanup_safety_barrier = none;
  original_file_deleted = false;
  artifact_cleanup_completed = false;
  intermediate_files_deleted = false;
  quarantine_used = false;
  quarantine_decided = false;
  attempts_completed = 0;
  facts = none;
}

abbrev task : AnalysisTask
task =
    let fresh = fresh_task 1 "a" 10 audio "config" 7 8 in
    record fresh {
      context = record fresh.context {
        status = AnalysisStatus.failed;
        stage = ProcessingStage.cleanup;
      };
      terminal_settlement = some settlement;
    }

abbrev locked : Operations
locked = record { artifacts = λ k. true; source = λ k. raised; quarantine = true }

abbrev config : CleanupConfig
config = record { cleanup_retries = 2; quarantine_enabled = true }

abbrev cleanup_error : ErrorDetail
cleanup_error = record {
  code = "cleanup_failed";
  category = "cleanup";
  message = "";
  retryable = true;
}

cleanup_accepted_example :
    (f : CleanupFacts) × (t : AnalysisTask) × (u : AnalysisTask) × (cleanup_task 3 locked config
        cleanup_error false settlement task
      ≡ ok (f, t))
    × (mark_terminal_facts_ready 9 3 f t ≡ ok u)
unfolding fresh_task owned_settlement
cleanup_accepted_example =
    cleanup_accepted 3 locked (λ k o i e. cc) config 9 cleanup_error false settlement task refl refl
      refl refl refl refl
