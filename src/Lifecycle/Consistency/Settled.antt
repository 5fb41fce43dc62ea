-- ===== src/Lifecycle/Consistency/Settled.antt =====
-- The methods of the terminal settlement keep a task consistent.
use fakedetector.Prelude.{ℕ, Bool, true, some, ◌≡◌, ok, arith, sym, subst}
use fakedetector.Domain.{ProcessingStage, ErrorDetail}
use fakedetector.Lifecycle.Task.{
  AnalysisTask, CleanupFacts, TerminalSettlement, TerminalSettlementPhase,
}
use fakedetector.Lifecycle.Settlement.{
  Confirmation, Progress, advance, with_settlement, claim_terminal_settlement,
  start_terminal_cleanup, try_confirm_terminal_cleanup_safe, record_cleanup_progress,
  mark_terminal_facts_ready, start_terminal_persistence, record_result_persistence_failure,
  release_terminal_settlement,
}
use fakedetector.Lifecycle.Consistency.{IsConsistent, settlement_fits}

-- A new settlement that fits the stage keeps a task consistent.
with_settlement-IsConsistent :
    {t : AnalysisTask} (c : IsConsistent t) {s : TerminalSettlement}
    → settlement_fits t.context.stage (some s) ≡ true
    → IsConsistent (with_settlement t s)
with_settlement-IsConsistent c h = ground arith

record_cleanup_progress_inv :
    {t u : AnalysisTask} (token : ℕ) (p : Progress)
    → record_cleanup_progress token p t ≡ ok u
    → (s : TerminalSettlement) × (t.terminal_settlement ≡ some s)
      × (s.phase ≡ TerminalSettlementPhase.cleanup_in_progress)
      × (u ≡ with_settlement t (advance p s))
unfolding record_cleanup_progress
record_cleanup_progress_inv token p e = ground arith

-- In CLEANUP_IN_PROGRESS no record of progress can break the fit.
advance_fits :
    (p : Progress) (s : TerminalSettlement) (stage : ProcessingStage)
    → s.phase ≡ TerminalSettlementPhase.cleanup_in_progress
    → settlement_fits stage (some (advance p s)) ≡ settlement_fits stage (some s)
unfolding advance
advance_fits p s stage h = ground arith

module _ {t u : AnalysisTask} (c : IsConsistent t) where
  pub claim_terminal_settlement-IsConsistent :
      (token : ℕ) (released : Bool)
      → claim_terminal_settlement token released t ≡ ok u
      → IsConsistent u
  unfolding claim_terminal_settlement
  claim_terminal_settlement-IsConsistent token released e = ground arith

  pub start_terminal_cleanup-IsConsistent :
      (token : ℕ) → start_terminal_cleanup token t ≡ ok u → IsConsistent u
  unfolding start_terminal_cleanup
  start_terminal_cleanup-IsConsistent token e = ground arith

  pub try_confirm-IsConsistent :
      (token : ℕ) (a : Confirmation) (b : Bool)
      → try_confirm_terminal_cleanup_safe token a t ≡ ok (b, u)
      → IsConsistent u
  unfolding try_confirm_terminal_cleanup_safe
  try_confirm-IsConsistent token a b e = ground arith

  pub record_cleanup_progress-IsConsistent :
      (token : ℕ) (p : Progress) → record_cleanup_progress token p t ≡ ok u → IsConsistent u
  unfolding record_cleanup_progress
  record_cleanup_progress-IsConsistent token p e =
      let (s, there, busy, after) = record_cleanup_progress_inv token p e in
      let same : settlement_fits t.context.stage (some (advance p s)) ≡ true =
        ground (arith, advance_fits p s t.context.stage, c.settlement) in
      subst IsConsistent (sym after) (with_settlement-IsConsistent c same)

  pub mark_terminal_facts_ready-IsConsistent :
      (identity token : ℕ) (f : CleanupFacts)
      → mark_terminal_facts_ready identity token f t ≡ ok u
      → IsConsistent u
  unfolding mark_terminal_facts_ready
  mark_terminal_facts_ready-IsConsistent identity token f e = ground arith

  pub start_terminal_persistence-IsConsistent :
      (token : ℕ) → start_terminal_persistence token t ≡ ok u → IsConsistent u
  unfolding start_terminal_persistence
  start_terminal_persistence-IsConsistent token e = ground arith

  pub record_result_persistence_failure-IsConsistent :
      (token : ℕ) (x : ErrorDetail)
      → record_result_persistence_failure token x t ≡ ok u
      → IsConsistent u
  unfolding record_result_persistence_failure
  record_result_persistence_failure-IsConsistent token x e = ground arith

  pub release_terminal_settlement-IsConsistent :
      (token : ℕ) → release_terminal_settlement token t ≡ ok u → IsConsistent u
  unfolding release_terminal_settlement
  release_terminal_settlement-IsConsistent token e = ground arith
