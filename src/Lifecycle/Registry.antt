-- ===== src/Lifecycle/Registry.antt =====
-- `TaskRegistry` of fakedetector/lifecycle/execution.py: the dict of live tasks and the claims of
-- inactive cleanups. Each method holds the registry's lock and raises before it writes, so it is a
-- function to a `Result`. The bodies that work on one task are in Staging and Settlement.
pub mod Soundness
pub mod Steps
pub mod Advance
pub mod Histories
pub mod Frozen
use fakedetector.Prelude.{
  ℕ, suc, String, Bool, true, false, ◌||◌, not, Option, none, some, List, [], ◌∷◌, ◌++◌, Result, ok,
  err, duplicate_task, task_not_found, ◌>>=◌, ◌>>◌, guard, is_some, contains, str_eq, if◌then◌else◌,
  find, replace, remove, discard,
}
use fakedetector.Lifecycle.Task.{
  AnalysisTask, TaskSnapshot, CleanupFacts, snapshot, Datetime, TerminalTaskFacts,
}
use fakedetector.Lifecycle.Settlement.{
  Confirmation, PreparedTerminalSettlement, claim_terminal_settlement, mark_terminal_facts_ready,
  try_confirm_terminal_cleanup_safe, finalize_terminal_settlement, is_recoverable,
}

-- `next_object` is the number of the next object that a method makes.
pub record TaskRegistry : Type 0 where
  pub tasks : List (String × AnalysisTask)
  pub cleanup_claims : List String
  pub next_object : ℕ

unfoldable pub empty_registry : TaskRegistry
empty_registry = record { tasks = []; cleanup_claims = []; next_object = 0 }

abbrev pub found {ℓ} : {A : Type ℓ} → Option A → Result A
found none = err task_not_found
found (some a) = ok a

-- _get
unfoldable pub get : String → TaskRegistry → Result AnalysisTask
get id r = found (find id r.tasks)

abbrev pub put : String → AnalysisTask → TaskRegistry → TaskRegistry
put id t r = record r { tasks = replace id t r.tasks }

-- A method that changes one task in place.
unfoldable pub modify :
    String → (AnalysisTask → Result AnalysisTask) → TaskRegistry → Result TaskRegistry
unfolding get
modify id body r = do task ← get id r; changed ← body task; ok (put id changed r)

unfoldable pub contains_task : String → TaskRegistry → Bool
contains_task id r = is_some (find id r.tasks)

unfoldable pub reserve : AnalysisTask → TaskRegistry → Result TaskRegistry
unfolding contains_task
reserve task r = do
  guard
      (not (
        contains_task task.context.analysis_id r
        || contains r.cleanup_claims task.context.analysis_id))
      duplicate_task
  ok (record r { tasks = r.tasks ++ (task.context.analysis_id, task) ∷ [] })

unfoldable pub rollback : String → TaskRegistry → TaskRegistry
rollback id r = record r { tasks = remove id r.tasks }

-- The first half of `cleanup_if_inactive`; `none` is its return before the cleanup.
unfoldable pub claim_inactive : String → TaskRegistry → Option TaskRegistry
unfolding contains_task
claim_inactive id r =
    if contains r.cleanup_claims id || contains_task id r
    then none
    else some (record r { cleanup_claims = id ∷ r.cleanup_claims })

-- Its `finally` block, after the cleanup has run without the lock.
unfoldable pub release_inactive : String → TaskRegistry → TaskRegistry
unfolding discard
release_inactive id r = record r { cleanup_claims = discard id r.cleanup_claims }

unfoldable pub snapshot_at : String → TaskRegistry → Result TaskSnapshot
unfolding get
snapshot_at id r = do task ← get id r; ok (snapshot task)

-- claim_terminal_settlement, with the token object that it makes
unfoldable pub claim_settlement : String → Bool → TaskRegistry → Result (ℕ × TaskRegistry)
unfolding modify
claim_settlement id released r = do
  s ← modify id (claim_terminal_settlement r.next_object released) r
  ok (r.next_object, record s { next_object = suc r.next_object })

unfoldable pub confirm_safe :
    String → ℕ → Confirmation → TaskRegistry → Result (Bool × TaskRegistry)
unfolding get
confirm_safe id token c r = do
  task ← get id r
  answer ← try_confirm_terminal_cleanup_safe token c task
  ok (answer.0, put id answer.1 r)

unfoldable pub facts_ready : String → ℕ → CleanupFacts → TaskRegistry → Result TaskRegistry
unfolding modify
facts_ready id token facts r = do
  s ← modify id (mark_terminal_facts_ready r.next_object token facts) r
  ok (record s { next_object = suc r.next_object })

-- finalize_terminal_settlement: publish, and evict the exact task
unfoldable pub finalize :
    String → ℕ → PreparedTerminalSettlement → TaskRegistry → Result (TaskSnapshot × TaskRegistry)
unfolding get
finalize id token prepared r = do
  task ← get id r
  done ← finalize_terminal_settlement token prepared task
  ok (done.0, record r { tasks = remove id r.tasks })

abbrev recoverable_in : List (String × AnalysisTask) → List String
recoverable_in [] = []
recoverable_in ((id, t) ∷ d) = if is_recoverable t then id ∷ recoverable_in d else recoverable_in d

unfoldable pub recoverable_terminal_tasks : TaskRegistry → List String
recoverable_terminal_tasks r = recoverable_in r.tasks
