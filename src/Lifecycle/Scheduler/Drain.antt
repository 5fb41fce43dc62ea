-- ===== src/Lifecycle/Scheduler/Drain.antt =====
-- What the workers of fakedetector/lifecycle/scheduler.py leave behind, and what they run.
use fakedetector.Prelude.{
  contains-discard, ℕ, String, Bool, true, false, ◌&&◌, not, List, [], ◌∷◌, ◌≡◌, refl, ap, arith,
  Result, ok, contains, str_eq, eq_iff, ◌∙◌,
}
use fakedetector.Domain.{MediaType, image, audio, video}
use fakedetector.Lifecycle.Scheduler.{
  Scheduler, QueueItem, queue_of, take_next, take_first, claimed, ended, is_leaving, new_scheduler,
  executes, popped,
}
use fakedetector.Lifecycle.Scheduler.Tally.{tally, all_confirmed}
use fakedetector.Lifecycle.Scheduler.Order.{IsTallied, is_settled, queue-contained}
use fakedetector.Lifecycle.Scheduler.Take.{take_first-IsTaken, take_first-ended}
use fakedetector.Lifecycle.Scheduler.Histories.{Reach, Reach-IsOrderly, next, takes}

settled-all :
    (m : MediaType) (s : Scheduler)
    → is_settled s ≡ true
    → is_leaving s.state ≡ true
    → all_confirmed (queue_of m s) ≡ true
unfolding is_settled
settled-all image s h l = ground arith
settled-all audio s h l = ground arith
settled-all video s h l = ground arith

-- A worker is told to end only when the scheduler shuts down or has stopped and the worker's queue is
-- empty: it leaves no confirmed item behind.
pub drained :
    (i a v : ℕ) (m : MediaType) (claim : Bool → String → Result (Unit {0})) (s : Scheduler)
    → Reach (new_scheduler i a v) s
    → take_next m claim s ≡ ok ended
    → (queue_of m s ≡ []) × (is_leaving s.state ≡ true)
drained i a v m claim s r e =
    let (tallied, settled) = Reach-IsOrderly i a v s r in
    take_first-ended m claim s (queue_of m s) e (settled-all m s settled)

head-contained :
    (m : MediaType) (item : QueueItem) (rest : List QueueItem) (s : Scheduler)
    → IsTallied s
    → queue_of m s ≡ item ∷ rest
    → contains s.analysis_ids item.analysis_id ≡ true
unfolding tally
head-contained m item rest s h e =
    let room = queue-contained m s item.analysis_id h in
    let count : tally item.analysis_id (queue_of m s) ≡ tally item.analysis_id (item ∷ rest) =
      ap (tally item.analysis_id) e in
    ground (arith, room, count, (eq_iff item.analysis_id item.analysis_id).1 refl)

-- A confirmed item at the head whose claim is accepted is handed to the worker, to execute unless
-- the scheduler shuts down without draining: in every history `_analysis_ids.remove` finds its id.
pub take_progress :
    (i a v : ℕ) (m : MediaType) (claim : Bool → String → Result (Unit {0})) (s : Scheduler)
    (item : QueueItem) (rest : List QueueItem)
    → Reach (new_scheduler i a v) s
    → queue_of m s ≡ item ∷ rest
    → item.dispatchable ≡ true
    → claim (executes s) item.analysis_id ≡ ok tt
    → take_next m claim s ≡ ok (claimed item (executes s) (popped m item rest s))
unfolding take_first
take_progress i a v m claim s item rest r e d c =
    let (tallied, settled) = Reach-IsOrderly i a v s r in
    rw e (simp (d, c, head-contained m item rest s tallied e) refl)

absent : (b : Bool) (id : String) → (b && not (str_eq id id)) ≡ false
absent b id = ground (arith, (eq_iff id id).1 refl)

-- A worker takes only a committed item, after its claim was accepted, and the item is then neither in
-- `_analysis_ids` nor in any queue.
pub taken_once :
    (i a v : ℕ) (m : MediaType) (claim : Bool → String → Result (Unit {0})) (s t : Scheduler)
    (item : QueueItem) (execute : Bool)
    → Reach (new_scheduler i a v) s
    → take_next m claim s ≡ ok (claimed item execute t)
    → (item.dispatchable ≡ true)
      × (claim execute item.analysis_id ≡ ok tt)
      × (contains t.analysis_ids item.analysis_id ≡ false)
      × (tally item.analysis_id t.image_queue ≡ 0)
      × (tally item.analysis_id t.audio_queue ≡ 0)
      × (tally item.analysis_id t.video_queue ≡ 0)
taken_once i a v m claim s t item execute r e =
    let taken = take_first-IsTaken m claim s (queue_of m s) e in
    let gone : contains t.analysis_ids item.analysis_id ≡ false =
      ap (λ u. contains (Scheduler.analysis_ids u) item.analysis_id) taken.left
      ∙ (contains-discard item.analysis_id item.analysis_id s.analysis_ids
          ∙ absent (contains s.analysis_ids item.analysis_id) item.analysis_id) in
    let counted = Reach-IsOrderly i a v t (next r (takes m claim item execute e)) in
    (
      taken.committed,
      taken.accepted,
      gone,
      ground (arith, gone, counted.0.counted item.analysis_id),
      ground (arith, gone, counted.0.counted item.analysis_id),
      ground (arith, gone, counted.0.counted item.analysis_id),
    )
