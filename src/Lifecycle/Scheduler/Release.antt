-- ===== src/Lifecycle/Scheduler/Release.antt =====
-- That `remove` and `_discard_provisional` of fakedetector/lifecycle/scheduler.py keep the queues and
-- the set of their ids in step.
use fakedetector.Prelude.{
  contains-discard, discard, ◌+◌, ◌≤◌, String, true, List, ◌≡◌, arith, contains, Bool-cases, inl,
  inr,
}
use fakedetector.Domain.{MediaType, image, audio, video}
use fakedetector.Lifecycle.Scheduler.{
  Scheduler, QueueItem, queue_of, is_leaving, remove_item, has_provisional, drop_provisional,
  discard_all, confirmed, provisional_ids, discard_provisional, release, discard_in,
}
use fakedetector.Lifecycle.Scheduler.Tally.{
  one_if, tally, tally-drop, length-drop, length-confirmed, confirmed-all, drop-all,
  contains-discard_all, tally-confirmed,
}
use fakedetector.Lifecycle.Scheduler.Order.{
  IsTallied, is_settled, IsOrderly, changed-IsTallied, queue-bound, queue-contained, one_if-bound,
}

released_balances :
    (id : String) (q : List QueueItem) (ids : List String) (x : String)
    → has_provisional id q ≡ true
    → tally x q ≤ one_if (contains ids x)
    → tally x (drop_provisional id q) + one_if (contains ids x)
      ≡ tally x q + one_if (contains (discard id ids) x)
released_balances id q ids x e h = ground (arith, tally-drop x id q e, contains-discard x id ids)

released-IsTallied :
    (m : MediaType) (id : String) (s : Scheduler)
    → has_provisional id (queue_of m s) ≡ true
    → IsTallied s
    → IsTallied (release id m s)
released-IsTallied m id s e h =
    let q = queue_of m s in
    changed-IsTallied m _ _ s h (omega (arith, length-drop id q, queue-bound m s h))
      (λ x. released_balances id q s.analysis_ids x e (queue-contained m s x h))

released-settled :
    (m : MediaType) (id : String) (s : Scheduler)
    → is_settled s ≡ true
    → is_settled (release id m s) ≡ true
unfolding is_settled
released-settled image id s h = ground (arith, drop-all id s.image_queue)
released-settled audio id s h = ground (arith, drop-all id s.audio_queue)
released-settled video id s h = ground (arith, drop-all id s.video_queue)

pub remove_item-IsOrderly :
    (id : String) (s : Scheduler) → IsOrderly s → IsOrderly (remove_item id s)
unfolding remove_item
remove_item-IsOrderly id s h = elim (Bool-cases (has_provisional id s.image_queue)) [
  | inl i ↦ rw i (released-IsTallied image id s i h.0, released-settled image id s h.1)
  | inr i ↦ rw i (elim (Bool-cases (has_provisional id s.audio_queue)) [
    | inl a ↦ rw a (released-IsTallied audio id s a h.0, released-settled audio id s h.1)
    | inr a ↦ rw a (elim (Bool-cases (has_provisional id s.video_queue)) [
      | inl v ↦ rw v (released-IsTallied video id s v h.0, released-settled video id s h.1)
      | inr v ↦ rw v h
    ])
  ])
]

discarded_balances :
    (q : List QueueItem) (ids : List String) (x : String)
    → tally x q ≤ one_if (contains ids x)
    → tally x (confirmed q) + one_if (contains ids x)
      ≡ tally x q + one_if (contains (discard_all (provisional_ids q) ids) x)
discarded_balances q ids x h =
    let once : tally x q ≤ 1 = omega (arith, h, one_if-bound (contains ids x)) in
    ground (arith, tally-confirmed x q once, contains-discard_all x (provisional_ids q) ids)

discarded-IsTallied : (m : MediaType) (s : Scheduler) → IsTallied s → IsTallied (discard_in m s)
discarded-IsTallied m s h =
    let q = queue_of m s in
    changed-IsTallied m _ _ s h (omega (arith, length-confirmed q, queue-bound m s h))
      (λ x. discarded_balances q s.analysis_ids x (queue-contained m s x h))

pub discard_provisional-IsTallied :
    (s : Scheduler) → IsTallied s → IsTallied (discard_provisional s)
unfolding discard_provisional
discard_provisional-IsTallied s h =
    discarded-IsTallied video _ (discarded-IsTallied audio _ (discarded-IsTallied image s h))

pub discard_provisional-settled :
    (s : Scheduler) → is_leaving s.state ≡ true → is_settled (discard_provisional s) ≡ true
unfolding is_settled discard_provisional
discard_provisional-settled s e =
    ground
      (arith, confirmed-all s.image_queue, confirmed-all s.audio_queue, confirmed-all s.video_queue)
