-- ===== src/Lifecycle/Consistency.antt =====
-- What holds of every task that the registry keeps, between two of its methods.
pub mod Staged
pub mod Settled
use fakedetector.Prelude.{
  ℕ, Bool, true, false, ◌&&◌, ◌||◌, not, Option, none, some, List, [], ◌∷◌, ◌≤◌, ◌≡◌, is_some,
  is_none, same_flag, refl,
}
use fakedetector.Domain.{AnalysisStatus, ProcessingStage, ErrorDetail, MediaType}
use fakedetector.Lifecycle.Task.{
  AnalysisTask, TerminalSettlement, TerminalSettlementPhase, CleanupFacts, fresh_task,
}
use fakedetector.Prelude.{String, arith}

-- created ≤ queued ≤ started, as far as they are there; a start needs a queue time
abbrev pub InOrder : ℕ → Option ℕ → Option ℕ → Type 0
InOrder created none none = Unit {0}
InOrder created none (some start) = ⊥
InOrder created (some queued) none = created ≤ queued
InOrder created (some queued) (some start) = (created ≤ queued) × (queued ≤ start)

-- The pairs of status and stage that a live task takes.
abbrev pub is_live : AnalysisStatus → ProcessingStage → Bool
is_live AnalysisStatus.queued ProcessingStage.registered = true
is_live AnalysisStatus.queued ProcessingStage.routing = true
is_live AnalysisStatus.queued ProcessingStage.queued = true
is_live AnalysisStatus.running ProcessingStage.preprocessing = true
is_live AnalysisStatus.running ProcessingStage.analysis = true
is_live AnalysisStatus.running ProcessingStage.risk_assessment = true
is_live AnalysisStatus.completed ProcessingStage.cleanup = true
is_live AnalysisStatus.completed ProcessingStage.persistence = true
is_live AnalysisStatus.partial ProcessingStage.cleanup = true
is_live AnalysisStatus.partial ProcessingStage.persistence = true
is_live AnalysisStatus.failed ProcessingStage.cleanup = true
is_live AnalysisStatus.failed ProcessingStage.persistence = true
is_live _ _ = false

-- A queued task has not started; one that runs, or ran to an outcome, has.
abbrev pub start_fits : AnalysisStatus → Bool → Bool
start_fits AnalysisStatus.queued started = not started
start_fits AnalysisStatus.failed started = true
start_fits _ started = started

-- The data that a stage or a partial outcome rests on.
abbrev pub data_fits : AnalysisStatus → ProcessingStage → Bool → Bool → Bool
data_fits AnalysisStatus.partial stage stage6 stage7 = stage7
data_fits status ProcessingStage.risk_assessment stage6 stage7 = stage6
data_fits status stage stage6 stage7 = true

abbrev pub implies : Bool → Bool → Bool
implies true b = b
implies false b = true

abbrev pub no_failure : AnalysisStatus → List ErrorDetail → Bool
no_failure AnalysisStatus.failed [] = false
no_failure AnalysisStatus.failed (e ∷ es) = true
no_failure status errors = true

abbrev flags_fit : TerminalSettlement → CleanupFacts → Bool
flags_fit s f =
    s.quarantine_decided
    && same_flag f.original_file_deleted s.original_file_deleted
    && same_flag f.intermediate_files_deleted s.intermediate_files_deleted
    && same_flag f.quarantine_used s.quarantine_used

-- Facts are there exactly in FACT_READY and repeat the recorded progress; a barrier is there in
-- CLAIMED only.
abbrev pub phase_fits :
    TerminalSettlement → TerminalSettlementPhase → Option (ℕ × CleanupFacts) → Bool
phase_fits s TerminalSettlementPhase.claimed facts = is_none facts
phase_fits s TerminalSettlementPhase.cleanup_in_progress facts =
    is_none facts && is_none s.cleanup_safety_barrier
phase_fits s TerminalSettlementPhase.fact_ready none = false
phase_fits s TerminalSettlementPhase.fact_ready (some f) =
    is_none s.cleanup_safety_barrier && flags_fit s f.1

abbrev ready : TerminalSettlementPhase → Bool
ready TerminalSettlementPhase.fact_ready = true
ready _ = false

-- A settlement is there in CLEANUP or PERSISTENCE only, and PERSISTENCE needs its facts.
abbrev pub settlement_fits : ProcessingStage → Option TerminalSettlement → Bool
settlement_fits ProcessingStage.cleanup none = true
settlement_fits ProcessingStage.cleanup (some s) = phase_fits s s.phase s.facts
settlement_fits ProcessingStage.persistence none = false
settlement_fits ProcessingStage.persistence (some s) = ready s.phase && phase_fits s s.phase s.facts
settlement_fits stage none = true
settlement_fits stage (some s) = false

abbrev is_settling : ProcessingStage → Bool
is_settling ProcessingStage.cleanup = true
is_settling ProcessingStage.persistence = true
is_settling _ = false

pub record IsConsistent (t : AnalysisTask) : Type 0 where
  pub live : is_live t.context.status t.context.stage ≡ true
  pub start : start_fits t.context.status (is_some t.context.started_at) ≡ true
  pub claim : t.execution_claimed ≡ is_some t.context.started_at
  pub order : InOrder t.context.created_at t.queued_at t.context.started_at
  pub queued : implies (is_settling t.context.stage) (is_some t.queued_at) ≡ true
  pub unfinished : t.context.finished_at ≡ none
  pub unpublished : t.cleanup_result ≡ none
  pub stage_data :
      data_fits t.context.status t.context.stage (is_some t.stage6_data) (is_some t.stage7_data)
      ≡ true
  pub stage6_after5 : implies (is_some t.stage6_data) (is_some t.stage5_data) ≡ true
  pub stage7_after6 : implies (is_some t.stage7_data) (is_some t.stage6_data) ≡ true
  pub failure : no_failure t.context.status t.errors ≡ true
  pub settlement : settlement_fits t.context.stage t.terminal_settlement ≡ true

pub fresh_task-IsConsistent :
    (identity : ℕ) (id : String) (created : ℕ) (media : MediaType) (snapshot : String)
    (source token : ℕ)
    → IsConsistent (fresh_task identity id created media snapshot source token)
unfolding fresh_task
fresh_task-IsConsistent identity id created media snapshot source token = record {
  live = refl;
  start = refl;
  claim = refl;
  order = tt;
  queued = refl;
  unfinished = refl;
  unpublished = refl;
  stage_data = refl;
  stage6_after5 = refl;
  stage7_after6 = refl;
  failure = refl;
  settlement = refl;
}
