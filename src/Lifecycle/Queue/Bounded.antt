-- ===== src/Lifecycle/Queue/Bounded.antt =====
-- `BoundedLocalScheduler` of fakedetector/lifecycle/scheduler.py as the queue of the receiver.
use fakedetector.Prelude.{
  ◌≤◌, String, Bool, true, false, List, [], ◌∷◌, ◌++◌, ◌≡◌, refl, sym, subst, ap, arith, contains,
  discard_added, eq_iff, ◌∙◌,
}
use fakedetector.Domain.{MediaType, image, audio, video}
use fakedetector.Lifecycle.Scheduler.{
  Scheduler, QueueItem, enqueue, commit, remove_item, has_provisional, drop_provisional, placed,
  queue_of, with_queue, new_item, has_room, mark,
}
use fakedetector.Lifecycle.Scheduler.Tally.{tally, one_if}
use fakedetector.Lifecycle.Scheduler.Order.{
  IsOrderly, IsTallied, enqueue-IsOrderly, commit-IsOrderly, enqueue_inv, commit_inv,
  queue-contained,
}
use fakedetector.Lifecycle.Scheduler.Release.{remove_item-IsOrderly}
use fakedetector.Lifecycle.Queue.{TaskQueue, IsLawful}

abbrev pub holds : String → Scheduler → Bool
holds id s = contains s.analysis_ids id

abbrev pub bounded : TaskQueue
bounded = record { State = Scheduler; enqueue = enqueue; remove = remove_item; commit = commit }

no_provisional : (id : String) (q : List QueueItem) → tally id q ≤ 0 → has_provisional id q ≡ false
unfolding tally has_provisional
no_provisional id [] h = refl
no_provisional id (i ∷ q) h = ground (arith, no_provisional id q)

drop-append :
    (i : QueueItem) (q : List QueueItem)
    → i.dispatchable ≡ false
    → tally i.analysis_id q ≤ 0
    → drop_provisional i.analysis_id (q ++ i ∷ []) ≡ q
unfolding tally drop_provisional
drop-append i [] e h = ground (arith, eq_iff i.analysis_id i.analysis_id)
drop-append i (j ∷ q) e h = ground (arith, drop-append i q e)

has-append :
    (i : QueueItem) (q : List QueueItem)
    → i.dispatchable ≡ false
    → has_provisional i.analysis_id (q ++ i ∷ []) ≡ true
unfolding has_provisional
has-append i [] e = ground (arith, eq_iff i.analysis_id i.analysis_id)
has-append i (j ∷ q) e = ground (arith, has-append i q e)

-- an id that is not in the set is not queued
absent-tally :
    (m : MediaType) (s : Scheduler) (id : String)
    → IsTallied s
    → contains s.analysis_ids id ≡ false
    → tally id (queue_of m s) ≤ 0
absent-tally m s id h absent =
    subst (λ b. tally id (queue_of m s) ≤ one_if b) absent (queue-contained m s id h)

absent-provisional :
    (m : MediaType) (s : Scheduler) (id : String)
    → IsTallied s
    → contains s.analysis_ids id ≡ false
    → has_provisional id (queue_of m s) ≡ false
absent-provisional m s id h absent = no_provisional id _ (absent-tally m s id h absent)

remove-absent :
    (id : String) (s : Scheduler)
    → IsTallied s
    → contains s.analysis_ids id ≡ false
    → remove_item id s ≡ s
unfolding remove_item
remove-absent id s h absent =
    rw
      (
        absent-provisional image s id h absent,
        absent-provisional audio s id h absent,
        absent-provisional video s id h absent,
      )
      refl

remove-placed :
    (m : MediaType) (i : QueueItem) (s : Scheduler)
    → i.dispatchable ≡ false
    → IsTallied s
    → contains s.analysis_ids i.analysis_id ≡ false
    → remove_item i.analysis_id (placed m i s) ≡ s
unfolding remove_item
remove-placed image i s e h absent =
    let queued = absent-tally image s i.analysis_id h absent in
    rw
      (
        has-append i s.image_queue e,
        drop-append i s.image_queue e queued,
        discard_added i.analysis_id s.analysis_ids absent,
      )
      refl
remove-placed audio i s e h absent =
    let queued = absent-tally audio s i.analysis_id h absent in
    rw
      (
        absent-provisional image s i.analysis_id h absent,
        has-append i s.audio_queue e,
        drop-append i s.audio_queue e queued,
        discard_added i.analysis_id s.analysis_ids absent,
      )
      refl
remove-placed video i s e h absent =
    let queued = absent-tally video s i.analysis_id h absent in
    rw
      (
        absent-provisional image s i.analysis_id h absent,
        absent-provisional audio s i.analysis_id h absent,
        has-append i s.video_queue e,
        drop-append i s.video_queue e queued,
        discard_added i.analysis_id s.analysis_ids absent,
      )
      refl

room-fresh :
    (id : String) (m : MediaType) (s : Scheduler)
    → has_room id m s ≡ true
    → contains s.analysis_ids id ≡ false
unfolding has_room
room-fresh id m s h = ground arith

with_queue-same_ids :
    (m : MediaType) (q : List QueueItem) (s : Scheduler)
    → (with_queue m q s).analysis_ids ≡ s.analysis_ids
with_queue-same_ids image q s = refl
with_queue-same_ids audio q s = refl
with_queue-same_ids video q s = refl

-- The bounded scheduler meets the protocol that the receiver relies on: an enqueued identity is
-- new and then there, `remove` undoes `enqueue` and leaves the scheduler alone when the identity is
-- not there, and each method keeps the queues in step with the set of their identities.
pub bounded-IsLawful : IsLawful bounded IsOrderly holds
bounded-IsLawful = record {
  enqueue-IsValid = enqueue-IsOrderly;
  commit-IsValid = commit-IsOrderly;
  remove-IsValid = remove_item-IsOrderly;
  enqueue-fresh = λ task executor s e. room-fresh _ _ s (enqueue_inv task executor s e).0;
  enqueue-holds = λ task executor s e.
      let (_, made) = enqueue_inv task executor s e in
      let id = task.context.analysis_id in
      subst (λ r. contains r.analysis_ids id ≡ true) (sym made) (rw ((eq_iff id id).1 refl) refl);
  commit-holds = λ id j s e.
      let (_, (m, made)) = commit_inv id s e in
      ap (λ ids. contains ids j)
        (ap (λ r. r.analysis_ids) made ∙ with_queue-same_ids m (mark id (queue_of m s)) s);
  remove-absent = λ id s h absent. remove-absent id s h.0 absent;
  remove-enqueue = λ task executor s e h.
      let (room, made) = enqueue_inv task executor s e in
      subst (λ r. remove_item task.context.analysis_id r ≡ s) (sym made)
        (remove-placed task.validated_media (new_item task executor) s refl h.0
          (room-fresh _ _ s room));
}
