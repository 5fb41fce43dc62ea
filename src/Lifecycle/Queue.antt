-- ===== src/Lifecycle/Queue.antt =====
-- The protocol `TaskQueue` of fakedetector/lifecycle/execution.py, which the receiver calls: its
-- three methods over an unknown state, and what the receiver relies on.
pub mod Fifo
pub mod Bounded
use fakedetector.Prelude.{ℕ, String, Bool, true, false, ◌≡◌, Result, ok}
use fakedetector.Lifecycle.Task.{AnalysisTask}

pub record TaskQueue : Type 1 where
  pub State : Type 0
  pub enqueue : AnalysisTask → ℕ → State → Result State
  pub remove : String → State → State
  pub commit : String → State → Result State

-- `IsValid` is what its methods keep, and `holds` is the view of a queue as the set of the identities that it has.
pub record IsLawful (Q : TaskQueue) (IsValid : Q.State → Type 0) (holds : String → Q.State → Bool)
    : Type 0 where
  pub enqueue-IsValid :
      (task : AnalysisTask) (executor : ℕ) (q : Q.State) {r : Q.State}
      → Q.enqueue task executor q ≡ ok r
      → IsValid q
      → IsValid r
  pub commit-IsValid :
      (id : String) (q : Q.State) {r : Q.State} → Q.commit id q ≡ ok r → IsValid q → IsValid r
  pub remove-IsValid : (id : String) (q : Q.State) → IsValid q → IsValid (Q.remove id q)
  -- an identity that the queue has is refused, and one that it takes is there
  pub enqueue-fresh :
      (task : AnalysisTask) (executor : ℕ) (q : Q.State) {r : Q.State}
      → Q.enqueue task executor q ≡ ok r
      → holds task.context.analysis_id q ≡ false
  pub enqueue-holds :
      (task : AnalysisTask) (executor : ℕ) (q : Q.State) {r : Q.State}
      → Q.enqueue task executor q ≡ ok r
      → holds task.context.analysis_id r ≡ true
  pub commit-holds :
      (id j : String) (q : Q.State) {r : Q.State} → Q.commit id q ≡ ok r → holds j r ≡ holds j q
  -- `remove` undoes `enqueue`, and does nothing to an identity that is not there
  pub remove-absent :
      (id : String) (q : Q.State) → IsValid q → holds id q ≡ false → Q.remove id q ≡ q
  pub remove-enqueue :
      (task : AnalysisTask) (executor : ℕ) (q : Q.State) {r : Q.State}
      → Q.enqueue task executor q ≡ ok r
      → IsValid q
      → Q.remove task.context.analysis_id r ≡ q
