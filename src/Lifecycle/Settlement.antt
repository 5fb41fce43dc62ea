-- ===== src/Lifecycle/Settlement.antt =====
-- The methods of `TaskRegistry` (fakedetector/lifecycle/execution.py) that own and publish the
-- terminal settlement of a task, each as a function of the task that the registry holds.
pub mod Ownership
pub mod Publication
use fakedetector.Prelude.{
  ℕ, zero, suc, String, Bool, true, false, ◌&&◌, ◌||◌, not, Option, none, some, List, [], ◌∷◌, ◌++◌,
  ◌==◌, str_eq, Result, ok, err, lifecycle_state, timestamp_validation, ◌>>=◌, ◌>>◌, guard, is_some,
  is_none, leb, same_flag, if◌then◌else◌,
}
use fakedetector.Domain.{AnalysisStatus, ProcessingStage, ErrorDetail, CleanupResult, same_status}
use fakedetector.Lifecycle.Task.{
  Datetime, utc, other, AnalysisContext, AnalysisTask, TerminalSettlement, TerminalSettlementPhase,
  CleanupFacts, Stage5TaskData, Stage6TaskData, TaskSnapshot, TerminalTaskFacts, snapshot_of,
}
use fakedetector.Lifecycle.Machine.{transition, project_context, is_cleanup, is_persistence}

abbrev pub is_phase : TerminalSettlementPhase → TerminalSettlementPhase → Bool
is_phase TerminalSettlementPhase.claimed TerminalSettlementPhase.claimed = true
is_phase TerminalSettlementPhase.cleanup_in_progress TerminalSettlementPhase.cleanup_in_progress =
    true
is_phase TerminalSettlementPhase.fact_ready TerminalSettlementPhase.fact_ready = true
is_phase _ _ = false

abbrev owns : ℕ → Option ℕ → Bool
owns token none = false
owns token (some owner) = owner == token

abbrev owned_by : ℕ → Option TerminalSettlement → Result TerminalSettlement
owned_by token none = err lifecycle_state
owned_by token (some s) = if owns token s.owner_token then ok s else err lifecycle_state

unfoldable pub owned_settlement : ℕ → AnalysisTask → Result TerminalSettlement
owned_settlement token task = do
  guard (is_cleanup task.context.stage || is_persistence task.context.stage) lifecycle_state
  owned_by token task.terminal_settlement

abbrev pub with_settlement : AnalysisTask → TerminalSettlement → AnalysisTask
with_settlement task s = record task { terminal_settlement = some s }

take_ownership : ℕ → Bool → Option TerminalSettlement → Result TerminalSettlement
take_ownership token released none = ok (record {
  identity = token;
  phase = TerminalSettlementPhase.claimed;
  owner_token = some token;
  cleanup_safety_barrier = none;
  original_file_deleted = released;
  artifact_cleanup_completed = false;
  intermediate_files_deleted = false;
  quarantine_used = false;
  quarantine_decided = false;
  attempts_completed = 0;
  facts = none;
})
take_ownership token released (some s) = do
  guard (is_none s.owner_token) lifecycle_state
  ok (record s { owner_token = some token })

-- `token` is the number of the new owner object (and of a new settlement); `released` is what
-- `task.accepted_source.is_released` answers.
unfoldable pub claim_terminal_settlement : ℕ → Bool → AnalysisTask → Result AnalysisTask
unfolding take_ownership
claim_terminal_settlement token released task = do
  guard (is_cleanup task.context.stage && is_none task.cleanup_result) lifecycle_state
  s ← take_ownership token released task.terminal_settlement
  ok (with_settlement task s)

unfoldable pub start_terminal_cleanup : ℕ → AnalysisTask → Result AnalysisTask
unfolding owned_settlement
start_terminal_cleanup token task = do
  s ← owned_settlement token task
  guard (is_phase s.phase TerminalSettlementPhase.claimed && is_none s.cleanup_safety_barrier)
      lifecycle_state
  ok (with_settlement task (record s { phase = TerminalSettlementPhase.cleanup_in_progress }))

-- What the barrier's `try_confirm_safe` did: it raised, or it answered.
pub data Confirmation : Type 0 where
  raised : Confirmation
  answered : Bool → Confirmation

abbrev confirmed : Confirmation → Bool
confirmed raised = false
confirmed (answered b) = b

confirm : Confirmation → AnalysisTask → TerminalSettlement → Option ℕ → Result (Bool × AnalysisTask)
confirm c task s none = ok (true, task)
confirm c task s (some barrier) = do
  guard (is_phase s.phase TerminalSettlementPhase.claimed) lifecycle_state
  ok (
      if confirmed c
      then (true, with_settlement task (record s { cleanup_safety_barrier = none }))
      else (false, task))

unfoldable pub try_confirm_terminal_cleanup_safe :
    ℕ → Confirmation → AnalysisTask → Result (Bool × AnalysisTask)
unfolding owned_settlement confirm
try_confirm_terminal_cleanup_safe token c task = do
  s ← owned_settlement token task
  confirm c task s s.cleanup_safety_barrier

-- The arguments of one progress record; `none` is an argument left at `None`.
pub record Progress : Type 0 where
  pub original_file_deleted : Bool
  pub artifact_cleanup_completed : Option Bool
  pub intermediate_files_deleted : Bool
  pub attempt_completed : Bool
  pub quarantine_used : Bool
  pub quarantine_decided : Option Bool

-- a fact that is there is not taken back
abbrev pub kept : Bool → Bool → Bool
kept true now = now
kept false now = true

abbrev kept_if : Bool → Option Bool → Bool
kept_if before none = true
kept_if before (some now) = kept before now

abbrev given_or : Option Bool → Bool → Bool
given_or none before = before
given_or (some now) before = now

unfoldable pub only_adds : Progress → TerminalSettlement → Bool
only_adds p s =
    kept s.original_file_deleted p.original_file_deleted
    && kept_if s.artifact_cleanup_completed p.artifact_cleanup_completed
    && kept s.intermediate_files_deleted p.intermediate_files_deleted
    && kept s.quarantine_used p.quarantine_used
    && kept_if s.quarantine_decided p.quarantine_decided

unfoldable pub advance : Progress → TerminalSettlement → TerminalSettlement
advance p s = record s {
  original_file_deleted = p.original_file_deleted;
  artifact_cleanup_completed = given_or p.artifact_cleanup_completed s.artifact_cleanup_completed;
  intermediate_files_deleted = p.intermediate_files_deleted;
  quarantine_used = p.quarantine_used;
  quarantine_decided = given_or p.quarantine_decided s.quarantine_decided;
  attempts_completed =
      if p.attempt_completed then suc s.attempts_completed else s.attempts_completed;
}

unfoldable pub record_cleanup_progress : ℕ → Progress → AnalysisTask → Result AnalysisTask
unfolding owned_settlement
record_cleanup_progress token p task = do
  s ← owned_settlement token task
  guard (is_phase s.phase TerminalSettlementPhase.cleanup_in_progress) lifecycle_state
  guard (only_adds p s) lifecycle_state
  ok (with_settlement task (advance p s))

-- `identity` is the number of the stored copy of the facts.
unfoldable pub mark_terminal_facts_ready : ℕ → ℕ → CleanupFacts → AnalysisTask → Result AnalysisTask
unfolding owned_settlement
mark_terminal_facts_ready identity token facts task = do
  s ← owned_settlement token task
  guard (is_phase s.phase TerminalSettlementPhase.cleanup_in_progress) lifecycle_state
  guard (is_none s.facts) lifecycle_state
  guard
      (s.quarantine_decided
        && same_flag facts.original_file_deleted s.original_file_deleted
        && same_flag facts.intermediate_files_deleted s.intermediate_files_deleted
        && same_flag facts.quarantine_used s.quarantine_used)
      lifecycle_state
  ok (
      with_settlement task
        (record s { phase = TerminalSettlementPhase.fact_ready; facts = some (identity, facts) }))

abbrev ready_facts : TerminalSettlement → Result (ℕ × CleanupFacts)
ready_facts s = elim s.facts [
  | none ↦ err lifecycle_state
  | some f ↦
      if is_phase s.phase TerminalSettlementPhase.fact_ready then ok f else err lifecycle_state
]

abbrev pub cleanup_result_of : CleanupFacts → Option ℕ → CleanupResult
cleanup_result_of f finished_at = record {
  status = f.status;
  original_file_deleted = f.original_file_deleted;
  intermediate_files_deleted = f.intermediate_files_deleted;
  quarantine_used = f.quarantine_used;
  finished_at = finished_at;
  errors = f.errors;
}

abbrev is_terminal_status : AnalysisStatus → Bool
is_terminal_status AnalysisStatus.completed = true
is_terminal_status AnalysisStatus.partial = true
is_terminal_status AnalysisStatus.failed = true
is_terminal_status _ = false

unfoldable pub terminal_task_facts : ℕ → AnalysisTask → Result TerminalTaskFacts
unfolding owned_settlement
terminal_task_facts token task = do
  s ← owned_settlement token task
  guard (is_cleanup task.context.stage) lifecycle_state
  f ← ready_facts s
  guard
      (not (str_eq task.context.analysis_id "") && not (str_eq task.context.config_snapshot_id ""))
      lifecycle_state
  guard (is_terminal_status task.context.status) lifecycle_state
  ok (record {
    analysis_id = task.context.analysis_id;
    created_at = task.context.created_at;
    status = task.context.status;
    config_snapshot_id = task.context.config_snapshot_id;
    queued_at = task.queued_at;
    started_at = task.context.started_at;
    analyzer_results = elim task.stage5_data [ none ↦ [] | some d ↦ d.analyzer_results ];
    findings = elim task.stage6_data [ none ↦ [] | some d ↦ d.findings ];
    assessment = task.stage7_data;
    cleanup = cleanup_result_of f.1 none;
    errors = task.errors;
  })

unfoldable pub start_terminal_persistence : ℕ → AnalysisTask → Result AnalysisTask
unfolding owned_settlement transition
start_terminal_persistence token task = do
  s ← owned_settlement token task
  f ← ready_facts s
  transition task task.context.status ProcessingStage.persistence none none

abbrev finished_after : ℕ → Option ℕ → Option ℕ → Datetime → Result ℕ
finished_after created queued started other = err timestamp_validation
finished_after created queued (some start) (utc t) =
    if leb start t then ok t else err timestamp_validation
finished_after created none none (utc t) = err lifecycle_state
finished_after created (some queued) none (utc t) =
    if leb created t && leb queued t then ok t else err timestamp_validation

pub record PreparedTerminalSettlement : Type 0 where
  pub analysis_id : String
  pub task : ℕ
  pub settlement : ℕ
  pub facts : ℕ
  pub owner_token : ℕ
  pub finished_context : AnalysisContext
  pub cleanup_result : CleanupResult
  pub snapshot : TaskSnapshot

unfoldable pub prepare_terminal_settlement :
    ℕ → Datetime → AnalysisTask → Result PreparedTerminalSettlement
unfolding owned_settlement project_context
prepare_terminal_settlement token finished_at task = do
  s ← owned_settlement token task
  guard (is_cleanup task.context.stage) lifecycle_state
  f ← ready_facts s
  guard (is_none task.cleanup_result) lifecycle_state
  t ← finished_after task.context.created_at task.queued_at task.context.started_at finished_at
  persistence_context ←
      project_context task task.context task.context.status ProcessingStage.persistence none none
  finished_context ←
      project_context task persistence_context task.context.status ProcessingStage.finished none
        (some t)
  ok (record {
    analysis_id = task.context.analysis_id;
    task = task.identity;
    settlement = s.identity;
    facts = f.0;
    owner_token = token;
    finished_context = finished_context;
    cleanup_result = cleanup_result_of f.1 (some t);
    snapshot = snapshot_of task finished_context (some (cleanup_result_of f.1 (some t)));
  })

abbrev pub has_code : String → List ErrorDetail → Bool
has_code c [] = false
has_code c (e ∷ es) = str_eq e.code c || has_code c es

unfoldable pub record_result_persistence_failure :
    ℕ → ErrorDetail → AnalysisTask → Result AnalysisTask
unfolding owned_settlement
record_result_persistence_failure token error task = do
  s ← owned_settlement token task
  guard (is_persistence task.context.stage) lifecycle_state
  guard (is_phase s.phase TerminalSettlementPhase.fact_ready) lifecycle_state
  guard (str_eq error.code "result_write_failed") lifecycle_state
  guard (not (has_code "result_write_failed" task.errors)) lifecycle_state
  ok (record task { errors = task.errors ++ error ∷ [] })

-- The task that is evicted, as its callers see it afterwards.
unfoldable pub finalize_terminal_settlement :
    ℕ → PreparedTerminalSettlement → AnalysisTask → Result (TaskSnapshot × AnalysisTask)
unfolding owned_settlement
finalize_terminal_settlement token prepared task = do
  s ← owned_settlement token task
  guard (str_eq prepared.analysis_id task.context.analysis_id) lifecycle_state
  guard (prepared.task == task.identity) lifecycle_state
  guard (prepared.settlement == s.identity) lifecycle_state
  guard (elim s.facts [ none ↦ false | some f ↦ prepared.facts == f.0 ]) lifecycle_state
  guard (prepared.owner_token == token) lifecycle_state
  guard (is_persistence task.context.stage) lifecycle_state
  guard (is_phase s.phase TerminalSettlementPhase.fact_ready) lifecycle_state
  guard (same_status task.context.status prepared.finished_context.status) lifecycle_state
  guard (is_none task.cleanup_result) lifecycle_state
  ok (
    prepared.snapshot,
    record task {
      context = prepared.finished_context;
      cleanup_result = some prepared.cleanup_result;
      terminal_settlement = none;
    },
  )

unfoldable pub release_terminal_settlement : ℕ → AnalysisTask → Result AnalysisTask
unfolding owned_settlement
release_terminal_settlement token task = do
  s ← owned_settlement token task
  ok (with_settlement task (record s { owner_token = none }))

abbrev unowned : Option TerminalSettlement → Bool
unowned none = false
unowned (some s) = is_none s.owner_token

abbrev pub is_recoverable : AnalysisTask → Bool
is_recoverable task = is_cleanup task.context.stage && unowned task.terminal_settlement
