-- ===== src/Lifecycle/Registry/Frozen.antt =====
-- How often the files of a task are cleaned up, over the histories of the registry of
-- fakedetector/lifecycle/execution.py.
use fakedetector.Prelude.{
  ℕ, String, some, ◌≡◌, true, subst, err, lifecycle_state, arith, find, Entries-find,
}
use fakedetector.Lifecycle.Task.{
  AnalysisTask, TerminalSettlement, TerminalSettlementPhase, CleanupFacts,
}
use fakedetector.Lifecycle.Settlement.{
  Progress, start_terminal_cleanup, record_cleanup_progress, mark_terminal_facts_ready,
}
use fakedetector.Lifecycle.Consistency.{settlement_fits}
use fakedetector.Lifecycle.Registry.{TaskRegistry}
use fakedetector.Lifecycle.Registry.Soundness.{IsSound, IsFiled}
use fakedetector.Lifecycle.Registry.Advance.{Keeps, frozen}
use fakedetector.Lifecycle.Registry.Histories.{Step, Step-IsSound, Step-Advances}

-- Any steps of the registry, by any threads, between which the identity names a task: `t` in `r`
-- before the first one, and `u` in `s` after the last.
pub data Stays (id : String) (r : TaskRegistry) (t : AnalysisTask)
    : TaskRegistry → AnalysisTask → Type 0 where
  stays : find id r.tasks ≡ some t → Stays id r t r t
  steps :
      {s v : TaskRegistry} (u w : AnalysisTask)
      → Stays id r t s u
      → Step s v
      → find id v.tasks ≡ some w
      → Stays id r t v w

-- No token can start the cleanup, record progress, or freeze facts.
abbrev pub IsCleanedUp : AnalysisTask → Type 0
IsCleanedUp t =
    ((token : ℕ) → start_terminal_cleanup token t ≡ err lifecycle_state)
    × ((token : ℕ) (p : Progress) → record_cleanup_progress token p t ≡ err lifecycle_state)
    × ((token n : ℕ) (f : CleanupFacts)
        → mark_terminal_facts_ready n token f t ≡ err lifecycle_state)

-- Facts are there in FACT_READY alone.
frozen-ready :
    (t : AnalysisTask) {facts : ℕ × CleanupFacts}
    → settlement_fits t.context.stage t.terminal_settlement ≡ true
    → frozen t.terminal_settlement ≡ some facts
    → (s : TerminalSettlement) × (t.terminal_settlement ≡ some s)
      × (s.phase ≡ TerminalSettlementPhase.fact_ready)
frozen-ready t fits e = ground arith

ready-IsCleanedUp :
    (s : TerminalSettlement) (t : AnalysisTask)
    → t.terminal_settlement ≡ some s
    → s.phase ≡ TerminalSettlementPhase.fact_ready
    → IsCleanedUp t
unfolding start_terminal_cleanup record_cleanup_progress mark_terminal_facts_ready
ready-IsCleanedUp s t e ready =
    (λ token. ground arith, λ token p. ground arith, λ token n f. ground arith)

kept_facts :
    (t u : AnalysisTask) {facts : ℕ × CleanupFacts}
    → Keeps (frozen t.terminal_settlement) (frozen u.terminal_settlement)
    → frozen t.terminal_settlement ≡ some facts
    → frozen u.terminal_settlement ≡ some facts
kept_facts t u keeps e = subst (λ o. Keeps o (frozen u.terminal_settlement)) e keeps

module _ {id : String} {r : TaskRegistry} {t : AnalysisTask} {facts : ℕ × CleanupFacts}
    (sound : IsSound r) (e : frozen t.terminal_settlement ≡ some facts) where
  Stays-frozen :
      {s : TaskRegistry} {u : AnalysisTask}
      → Stays id r t s u
      → IsSound s × (find id s.tasks ≡ some u) × (frozen u.terminal_settlement ≡ some facts)
  Stays-frozen (stays f) = (sound, f, e)
  Stays-frozen (steps u w way st f) =
      let (whole, before, same) = Stays-frozen way in
      let forward = Step-Advances id u w whole st before f in
      (Step-IsSound st whole, f, kept_facts u w forward.facts same)

-- Once the cleanup facts of a task in a sound registry are frozen, then after any further steps of
-- the registry that leave the task in it the same facts are frozen, and no token can start the
-- cleanup again, record progress or freeze other facts.
pub cleanup_once :
    {id : String} {r s : TaskRegistry} {t u : AnalysisTask} {facts : ℕ × CleanupFacts}
    → IsSound r
    → frozen t.terminal_settlement ≡ some facts
    → Stays id r t s u
    → (frozen u.terminal_settlement ≡ some facts) × IsCleanedUp u
cleanup_once {id} {r} {s} {t} {u} sound e way =
    let (whole, named, same) = Stays-frozen sound e way in
    let (x, there, ready) =
      frozen-ready u (Entries-find IsFiled id s.tasks whole.filed named).1.settlement same in
    (same, ready-IsCleanedUp x u there ready)
