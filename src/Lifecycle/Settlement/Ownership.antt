-- ===== src/Lifecycle/Settlement/Ownership.antt =====
-- Who may settle a task.
use fakedetector.Prelude.{ℕ, Bool, some, ◌≡◌, ◌≢◌, err, lifecycle_state, arith}
use fakedetector.Domain.{ErrorDetail}
use fakedetector.Lifecycle.Task.{Datetime, AnalysisTask, TerminalSettlement, CleanupFacts}
use fakedetector.Lifecycle.Settlement.{
  Confirmation, Progress, PreparedTerminalSettlement, owned_settlement, claim_terminal_settlement,
  start_terminal_cleanup, try_confirm_terminal_cleanup_safe, record_cleanup_progress,
  mark_terminal_facts_ready, terminal_task_facts, start_terminal_persistence,
  prepare_terminal_settlement, record_result_persistence_failure, finalize_terminal_settlement,
  release_terminal_settlement,
}

stranger_refused :
    (token owner : ℕ) (s : TerminalSettlement) (t : AnalysisTask)
    → t.terminal_settlement ≡ some s
    → s.owner_token ≡ some owner
    → owner ≢ token
    → owned_settlement token t ≡ err lifecycle_state
unfolding owned_settlement
stranger_refused token owner s t e o h = ground arith

-- While a settlement has an owner, the ten methods of it that confirm, clean up, freeze, capture,
-- prepare, publish or give back refuse another token, and no second claim succeeds.
pub settlement_exclusive :
    (token owner : ℕ) (s : TerminalSettlement) (t : AnalysisTask)
    → t.terminal_settlement ≡ some s
    → s.owner_token ≡ some owner
    → owner ≢ token
    → ((fresh : ℕ) (released : Bool)
        → claim_terminal_settlement fresh released t ≡ err lifecycle_state)
      × ((c : Confirmation) → try_confirm_terminal_cleanup_safe token c t ≡ err lifecycle_state)
      × (start_terminal_cleanup token t ≡ err lifecycle_state)
      × ((p : Progress) → record_cleanup_progress token p t ≡ err lifecycle_state)
      × ((n : ℕ) (f : CleanupFacts) → mark_terminal_facts_ready n token f t ≡ err lifecycle_state)
      × (terminal_task_facts token t ≡ err lifecycle_state)
      × ((at : Datetime) → prepare_terminal_settlement token at t ≡ err lifecycle_state)
      × (start_terminal_persistence token t ≡ err lifecycle_state)
      × ((x : ErrorDetail) → record_result_persistence_failure token x t ≡ err lifecycle_state)
      × ((p : PreparedTerminalSettlement)
          → finalize_terminal_settlement token p t ≡ err lifecycle_state)
      × (release_terminal_settlement token t ≡ err lifecycle_state)
settlement_exclusive token owner s t e o h = (
  unfold claim_terminal_settlement in (λ fresh released. ground arith),
  unfold try_confirm_terminal_cleanup_safe in (λ c. ground arith),
  unfold start_terminal_cleanup in ground arith,
  unfold record_cleanup_progress in (λ p. ground arith),
  unfold mark_terminal_facts_ready in (λ n f. ground arith),
  unfold terminal_task_facts in ground arith,
  unfold prepare_terminal_settlement in (λ at. ground arith),
  unfold start_terminal_persistence in ground arith,
  unfold record_result_persistence_failure in (λ x. ground arith),
  unfold finalize_terminal_settlement in (λ p. ground arith),
  unfold release_terminal_settlement in ground arith,
)
