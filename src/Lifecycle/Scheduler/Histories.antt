-- ===== src/Lifecycle/Scheduler/Histories.antt =====
-- Whole histories of the scheduler of fakedetector/lifecycle/scheduler.py, from a new one.
use fakedetector.Prelude.{
  contains-discard, discard, ℕ, ◌+◌, ◌≤◌, String, Bool, true, List, ◌∷◌, ◌≡◌, refl, sym, ap, subst,
  arith, length, contains, Result, ok,
}
use fakedetector.Domain.{MediaType, image, audio, video}
use fakedetector.Lifecycle.Task.{AnalysisTask}
use fakedetector.Lifecycle.Scheduler.{
  Scheduler, QueueItem, queue_of, enqueue, commit, remove_item, is_leaving, start, end_start,
  begin_shutdown, end_shutdown, stop_after_worker_termination, claimed, take_next, new_scheduler,
  popped,
}
use fakedetector.Lifecycle.Scheduler.Tally.{one_if, tally, all_confirmed}
use fakedetector.Lifecycle.Scheduler.Order.{
  IsTallied, is_settled, IsOrderly, changed-IsTallied, queue-bound, queue-contained,
  enqueue-IsOrderly, commit-IsOrderly,
}
use fakedetector.Lifecycle.Scheduler.Release.{remove_item-IsOrderly}
use fakedetector.Lifecycle.Scheduler.Leaving.{
  start-IsOrderly, end_start-IsOrderly, begin_shutdown-IsOrderly, end_shutdown-IsOrderly,
  stop_after-IsOrderly,
}
use fakedetector.Lifecycle.Scheduler.Take.{take_first-IsTaken}

popped_balances :
    (item : QueueItem) (q : List QueueItem) (ids : List String) (x : String)
    → tally x (item ∷ q) ≤ one_if (contains ids x)
    → tally x q + one_if (contains ids x)
      ≡ tally x (item ∷ q) + one_if (contains (discard item.analysis_id ids) x)
unfolding tally
popped_balances item q ids x h = ground (arith, contains-discard x item.analysis_id ids)

popped-IsTallied :
    (m : MediaType) (item : QueueItem) (rest : List QueueItem) (s : Scheduler)
    → queue_of m s ≡ item ∷ rest
    → IsTallied s
    → IsTallied (popped m item rest s)
popped-IsTallied m item rest s e h =
    changed-IsTallied m rest (discard item.analysis_id s.analysis_ids) s h
      (omega (arith, ap length e, queue-bound m s h))
      (λ x. rw e (popped_balances item rest s.analysis_ids x (rw e at (queue-contained m s x h))))

popped-settled :
    (m : MediaType) (item : QueueItem) (rest : List QueueItem) (s : Scheduler)
    → queue_of m s ≡ item ∷ rest
    → is_settled s ≡ true
    → is_settled (popped m item rest s) ≡ true
unfolding is_settled all_confirmed
popped-settled image item rest s e h = ground (arith, ap all_confirmed e)
popped-settled audio item rest s e h = ground (arith, ap all_confirmed e)
popped-settled video item rest s e h = ground (arith, ap all_confirmed e)

take_next-IsOrderly :
    (m : MediaType) (claim : Bool → String → Result (Unit {0})) (s : Scheduler) {item : QueueItem}
    {execute : Bool} {t : Scheduler}
    → take_next m claim s ≡ ok (claimed item execute t)
    → IsOrderly s
    → IsOrderly t
take_next-IsOrderly m claim s {item} e h =
    let taken = take_first-IsTaken m claim s (queue_of m s) e in
    subst IsOrderly (sym taken.left) (
      popped-IsTallied m item taken.rest s taken.head h.0,
      popped-settled m item taken.rest s taken.head h.1,
    )

-- One critical section of the scheduler's condition. A failed launch, whose last section is
-- `ends_start`, has left the scheduler leaving before.
pub data Step (s t : Scheduler) : Type 0 where
  starts : (launched : Bool) → start launched s ≡ ok t → Step s t
  ends_start : is_leaving s.state ≡ true → t ≡ end_start s → Step s t
  enqueues : (task : AnalysisTask) (executor : ℕ) → enqueue task executor s ≡ ok t → Step s t
  commits : (id : String) → commit id s ≡ ok t → Step s t
  removes : (id : String) → t ≡ remove_item id s → Step s t
  takes :
      (m : MediaType) (claim : Bool → String → Result (Unit {0})) (item : QueueItem)
      (execute : Bool)
      → take_next m claim s ≡ ok (claimed item execute t)
      → Step s t
  begins_shutdown : (drain : Bool) → begin_shutdown drain s ≡ ok t → Step s t
  ends_shutdown : s.shutdown_in_progress ≡ true → t ≡ end_shutdown s → Step s t
  terminates : t ≡ stop_after_worker_termination s → Step s t

pub data Reach (s : Scheduler) : Scheduler → Type 0 where
  here : Reach s s
  next : {t v : Scheduler} → Reach s t → Step t v → Reach s v

Step-IsOrderly : {s t : Scheduler} → Step s t → IsOrderly s → IsOrderly t
Step-IsOrderly {s} (starts launched e) h = start-IsOrderly launched s e h
Step-IsOrderly {s} (ends_start l e) h = subst IsOrderly (sym e) (end_start-IsOrderly s l h)
Step-IsOrderly {s} (enqueues task executor e) h = enqueue-IsOrderly task executor s e h
Step-IsOrderly {s} (commits id e) h = commit-IsOrderly id s e h
Step-IsOrderly {s} (removes id e) h = subst IsOrderly (sym e) (remove_item-IsOrderly id s h)
Step-IsOrderly {s} (takes m claim item execute e) h = take_next-IsOrderly m claim s e h
Step-IsOrderly {s} (begins_shutdown drain e) h = begin_shutdown-IsOrderly drain s e h
Step-IsOrderly {s} (ends_shutdown p e) h = subst IsOrderly (sym e) (end_shutdown-IsOrderly s p h)
Step-IsOrderly {s} (terminates e) h = subst IsOrderly (sym e) (stop_after-IsOrderly s h)

new-IsOrderly : (i a v : ℕ) → IsOrderly (new_scheduler i a v)
unfolding new_scheduler is_settled tally all_confirmed
new-IsOrderly i a v = (
  record {
    image_bound = omega arith;
    audio_bound = omega arith;
    video_bound = omega arith;
    counted = λ x. refl;
  },
  refl,
)

-- Whatever the history of a scheduler, each queue keeps to its capacity, `_analysis_ids` holds
-- exactly the queued ids and each of them is queued once, only a scheduler that leaves is in a
-- shutdown, and one that does not run has no provisional item.
pub Reach-IsOrderly : (i a v : ℕ) (s : Scheduler) → Reach (new_scheduler i a v) s → IsOrderly s
Reach-IsOrderly i a v s here = new-IsOrderly i a v
Reach-IsOrderly i a v s (next {t} r st) = Step-IsOrderly st (Reach-IsOrderly i a v t r)
