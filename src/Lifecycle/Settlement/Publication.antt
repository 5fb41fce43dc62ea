-- ===== src/Lifecycle/Settlement/Publication.antt =====
-- Publishing a settled task: all that can fail comes before the result is saved.
use fakedetector.Prelude.{ℕ, Option, none, some, ◌≡◌, ◌≤◌, ok, arith, refl, eq_iff}
use fakedetector.Domain.{ProcessingStage}
use fakedetector.Lifecycle.Task.{
  Datetime, utc, AnalysisTask, AnalysisContext, TerminalSettlement, TerminalSettlementPhase,
  CleanupFacts, snapshot_of,
}
use fakedetector.Lifecycle.Settlement.{
  PreparedTerminalSettlement, start_terminal_persistence, cleanup_result_of,
  prepare_terminal_settlement, finalize_terminal_settlement,
}
use fakedetector.Lifecycle.Consistency.{IsConsistent}

-- The task in PERSISTENCE, and the task that is evicted.
abbrev persisting : AnalysisTask → AnalysisTask
persisting t = record t {
  context = record t.context { stage = ProcessingStage.persistence; finished_at = none };
}

abbrev published : PreparedTerminalSettlement → AnalysisTask → AnalysisTask
published p t = record t {
  context = p.finished_context;
  cleanup_result = some p.cleanup_result;
  terminal_settlement = none;
}

persistence_starts :
    (token : ℕ) (at : Datetime) (t : AnalysisTask) (p : PreparedTerminalSettlement)
    → prepare_terminal_settlement token at t ≡ ok p
    → start_terminal_persistence token t ≡ ok (persisting t)
unfolding prepare_terminal_settlement start_terminal_persistence
persistence_starts token at t p e = ground arith

finalize_follows :
    (token : ℕ) (at : Datetime) (t : AnalysisTask) (p : PreparedTerminalSettlement)
    → prepare_terminal_settlement token at t ≡ ok p
    → finalize_terminal_settlement token p (persisting t) ≡ ok (p.snapshot, published p t)
unfolding prepare_terminal_settlement finalize_terminal_settlement
finalize_follows token at t p e = ground (arith, eq_iff t.context.analysis_id t.context.analysis_id)

-- If a settlement was prepared, then entering PERSISTENCE succeeds, and so does publishing
-- what was prepared: no check can fail between the save of a result and its publication.
pub publication_succeeds :
    (token : ℕ) (at : Datetime) (t : AnalysisTask) (p : PreparedTerminalSettlement)
    → prepare_terminal_settlement token at t ≡ ok p
    → (u : AnalysisTask) × (v : AnalysisTask) × (start_terminal_persistence token t ≡ ok u)
      × (finalize_terminal_settlement token p u ≡ ok (p.snapshot, v))
publication_succeeds token at t p e = (
  persisting t,
  published p t,
  persistence_starts token at t p e,
  finalize_follows token at t p e,
)

-- started_at or queued_at or created_at, as `settle_terminal` computes it
unfoldable pub lower_bound : Option ℕ → Option ℕ → ℕ → ℕ
lower_bound (some start) queued created = start
lower_bound none (some queued) created = queued
lower_bound none none created = created

prepared : ℕ → ℕ → TerminalSettlement → ℕ × CleanupFacts → AnalysisTask → PreparedTerminalSettlement
prepared token n s f t = record {
  analysis_id = t.context.analysis_id;
  task = t.identity;
  settlement = s.identity;
  facts = f.0;
  owner_token = token;
  finished_context = finished;
  cleanup_result = cleanup_result_of f.1 (some n);
  snapshot = snapshot_of t finished (some (cleanup_result_of f.1 (some n)));
}
  where
    finished : AnalysisContext
    finished = record t.context { stage = ProcessingStage.finished; finished_at = some n }

prepare-prepared :
    (token n : ℕ) (s : TerminalSettlement) (f : ℕ × CleanupFacts) (t : AnalysisTask)
    → IsConsistent t
    → t.context.stage ≡ ProcessingStage.cleanup
    → t.terminal_settlement ≡ some s
    → s.owner_token ≡ some token
    → s.phase ≡ TerminalSettlementPhase.fact_ready
    → s.facts ≡ some f
    → lower_bound t.context.started_at t.queued_at t.context.created_at ≤ n
    → prepare_terminal_settlement token (utc n) t ≡ ok (prepared token n s f t)
unfolding prepare_terminal_settlement prepared lower_bound
prepare-prepared token n s f t c stage e o ready facts bound = ground arith

-- A consistent task in CLEANUP whose owner holds frozen facts can be prepared at every finish time
-- that is not before its last time stamp; what is prepared is FINISHED with the task's status at
-- that time, and carries the frozen facts stamped with it.
pub preparation_succeeds :
    (token n : ℕ) (s : TerminalSettlement) (f : ℕ × CleanupFacts) (t : AnalysisTask)
    → IsConsistent t
    → t.context.stage ≡ ProcessingStage.cleanup
    → t.terminal_settlement ≡ some s
    → s.owner_token ≡ some token
    → s.phase ≡ TerminalSettlementPhase.fact_ready
    → s.facts ≡ some f
    → lower_bound t.context.started_at t.queued_at t.context.created_at ≤ n
    → (p : PreparedTerminalSettlement) × (prepare_terminal_settlement token (utc n) t ≡ ok p)
      × (p.snapshot.status ≡ t.context.status)
      × (p.snapshot.stage ≡ ProcessingStage.finished)
      × (p.snapshot.finished_at ≡ some n)
      × (p.snapshot.cleanup ≡ some (cleanup_result_of f.1 (some n)))
preparation_succeeds token n s f t c stage e o ready facts bound = (
  prepared token n s f t,
  prepare-prepared token n s f t c stage e o ready facts bound,
  unfold prepared in refl,
  unfold prepared in refl,
  unfold prepared in refl,
  unfold prepared in refl,
)
