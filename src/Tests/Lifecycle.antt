-- ===== src/Tests/Lifecycle.antt =====
-- The registry and the settlement (fakedetector/lifecycle) on concrete tasks.
use fakedetector.Prelude.{
  ℕ, ◌≤◌, true, false, none, some, [], ◌∷◌, ◌≡◌, refl, ok, err, arith, find, replace,
  lifecycle_state, inl,
}
use fakedetector.Domain.{AnalysisStatus, ProcessingStage, CleanupStatus, image, ErrorDetail}
use fakedetector.Lifecycle.Task.{
  utc, AnalysisTask, TerminalSettlement, TerminalSettlementPhase, CleanupFacts, fresh_task,
}
use fakedetector.Lifecycle.Machine.{allowed}
use fakedetector.Lifecycle.Machine.Paths.{Transitions, here, next, lifecycle_paths}
use fakedetector.Lifecycle.Staging.{staged_transition}
use fakedetector.Lifecycle.Settlement.{
  PreparedTerminalSettlement, start_terminal_cleanup, start_terminal_persistence,
  prepare_terminal_settlement, finalize_terminal_settlement, cleanup_result_of,
}
use fakedetector.Lifecycle.Settlement.Ownership.{settlement_exclusive}
use fakedetector.Lifecycle.Settlement.Publication.{
  publication_succeeds, preparation_succeeds, lower_bound,
}
use fakedetector.Lifecycle.Consistency.{IsConsistent}
use fakedetector.Lifecycle.Registry.{TaskRegistry, empty_registry, reserve, put}
use fakedetector.Lifecycle.Registry.Soundness.{IsSound}
use fakedetector.Lifecycle.Registry.Steps.{stages, persists}
use fakedetector.Lifecycle.Registry.Advance.{Advances, frozen}
use fakedetector.Lifecycle.Registry.Frozen.{Stays, stays, steps, IsCleanedUp, cleanup_once}
use fakedetector.Lifecycle.Registry.Histories
use fakedetector.Lifecycle.Registry.Histories.{
  Step, Reach, reserves, changes, Reach-IsSound, Step-Advances,
}

abbrev one_task : TaskRegistry
one_task = record {
  tasks = ("a1", fresh_task 1 "a1" 100 image "cfg" 7 8) ∷ [];
  cleanup_claims = [];
  next_object = 0;
}

first-Step : Step empty_registry one_task
unfolding empty_registry reserve find fresh_task
first-Step = reserves 1 "a1" 100 image "cfg" 7 8 refl

one_task-IsSound : IsSound one_task
one_task-IsSound = Histories.Step-IsSound first-Step Histories.empty-IsSound

Reach-IsSound_example : IsSound one_task
Reach-IsSound_example = Reach-IsSound (Histories.next Histories.here first-Step)

second-Step :
    Step one_task
      (record (put "a1"
        (record (fresh_task 1 "a1" 100 image "cfg" 7 8) {
          context = record (fresh_task 1 "a1" 100 image "cfg" 7 8).context {
            stage = ProcessingStage.routing;
          };
        })
        one_task) { next_object = 0 })
unfolding find staged_transition fresh_task
second-Step = changes "a1" _ _ 0 refl (stages ProcessingStage.routing (inl refl) refl) refl

Step-Advances_example :
    Advances
      (fresh_task 1 "a1" 100 image "cfg" 7 8)
      (record (fresh_task 1 "a1" 100 image "cfg" 7 8) {
        context = record (fresh_task 1 "a1" 100 image "cfg" 7 8).context {
          stage = ProcessingStage.routing;
        };
      })
unfolding find replace
Step-Advances_example = Step-Advances "a1" _ _ one_task-IsSound second-Step refl refl

abbrev facts : CleanupFacts
facts = record {
  status = CleanupStatus.completed;
  original_file_deleted = true;
  intermediate_files_deleted = true;
  quarantine_used = false;
  errors = [];
}

-- Owned by token 3, with frozen facts.
abbrev settled : TerminalSettlement
settled = record {
  identity = 3;
  phase = TerminalSettlementPhase.fact_ready;
  owner_token = some 3;
  cleanup_safety_barrier = none;
  original_file_deleted = true;
  artifact_cleanup_completed = true;
  intermediate_files_deleted = true;
  quarantine_used = false;
  quarantine_decided = true;
  attempts_completed = 1;
  facts = some (4, facts);
}

abbrev failure : ErrorDetail
failure = record { code = "internal_error"; category = "internal"; message = ""; retryable = true }

-- A task that failed after its start, ready to be published.
abbrev ready : AnalysisTask
ready = record {
  identity = 1;
  context = record {
    analysis_id = "a1";
    created_at = 100;
    status = AnalysisStatus.failed;
    stage = ProcessingStage.cleanup;
    media_type = image;
    config_snapshot_id = "cfg";
    started_at = some 120;
    finished_at = none;
  };
  validated_media = image;
  accepted_source = 7;
  artifacts = record { registry_token = 8; obligations = []; completed = [] };
  stage5_data = none;
  stage6_data = none;
  stage7_data = none;
  queued_at = some 110;
  cleanup_result = none;
  errors = failure ∷ [];
  route = some image;
  execution_claimed = true;
  terminal_settlement = some settled;
}

ready-IsConsistent : IsConsistent ready
ready-IsConsistent = ground arith

settlement_exclusive_example : start_terminal_cleanup 2 ready ≡ err lifecycle_state
settlement_exclusive_example = (settlement_exclusive 2 3 settled ready refl refl (omega arith)).2

abbrev holding : TaskRegistry
holding = record { tasks = ("a1", ready) ∷ []; cleanup_claims = []; next_object = 5 }

holding-IsSound : IsSound holding
unfolding find
holding-IsSound = record { filed = ((refl, ready-IsConsistent), tt); apart = λ id h. cc }

-- the same task in PERSISTENCE
abbrev persisting : AnalysisTask
persisting = record ready { context = record ready.context { stage = ProcessingStage.persistence } }

persisting-Stays :
    Stays "a1" holding ready (record (put "a1" persisting holding) { next_object = 5 }) persisting
unfolding find replace start_terminal_persistence
persisting-Stays =
    steps ready persisting (stays refl)
      (changes "a1" ready persisting 5 refl (persists 3 refl) refl) refl

cleanup_once_example :
    (frozen persisting.terminal_settlement ≡ some (4, facts)) × IsCleanedUp persisting
cleanup_once_example = cleanup_once holding-IsSound refl persisting-Stays

prepared_ready :
    (p : PreparedTerminalSettlement) × (prepare_terminal_settlement 3 (utc 130) ready ≡ ok p)
    × (p.snapshot.status ≡ AnalysisStatus.failed)
    × (p.snapshot.stage ≡ ProcessingStage.finished)
    × (p.snapshot.finished_at ≡ some 130)
    × (p.snapshot.cleanup ≡ some (cleanup_result_of facts (some 130)))
unfolding lower_bound
prepared_ready =
    preparation_succeeds 3 130 settled (4, facts) ready ready-IsConsistent refl refl refl refl refl
      (omega arith)

preparation_succeeds_example :
    (p : PreparedTerminalSettlement) × (prepare_terminal_settlement 3 (utc 130) ready ≡ ok p)
    × (p.snapshot.status ≡ AnalysisStatus.failed)
    × (p.snapshot.stage ≡ ProcessingStage.finished)
    × (p.snapshot.finished_at ≡ some 130)
    × (p.snapshot.cleanup ≡ some (cleanup_result_of facts (some 130)))
unfolding lower_bound
preparation_succeeds_example =
    preparation_succeeds 3 130 settled (4, facts) ready ready-IsConsistent refl refl refl refl refl
      (omega arith)

publication_succeeds_example :
    (u : AnalysisTask) × (v : AnalysisTask) × (start_terminal_persistence 3 ready ≡ ok u)
    × (finalize_terminal_settlement 3 prepared_ready.0 u ≡ ok (prepared_ready.0.snapshot, v))
publication_succeeds_example =
    publication_succeeds 3 (utc 130) ready prepared_ready.0 prepared_ready.1

path :
    Transitions AnalysisStatus.queued ProcessingStage.registered 1 AnalysisStatus.queued
      ProcessingStage.routing
unfolding allowed
path = next here refl

lifecycle_paths_example :
    (1 ≤ 8)
    × ((m : ℕ) × (s' : AnalysisStatus) × Transitions AnalysisStatus.queued ProcessingStage.routing m
          s' ProcessingStage.finished)
lifecycle_paths_example = lifecycle_paths path
