-- ===== src/Tests/Scheduler.antt =====
-- The bounded scheduler (fakedetector/lifecycle/scheduler.py) on one audio task.
use fakedetector.Prelude.{
  ◌≡◌, refl, String, Bool, true, false, some, [], ◌∷◌, Result, ok, err, queue_state, contains,
  discard,
}
use fakedetector.Domain.{audio, ProcessingStage}
use fakedetector.Lifecycle.Task.{AnalysisTask, fresh_task}
use fakedetector.Lifecycle.Scheduler.{
  Scheduler, QueueItem, new_scheduler, running, shutting_down, start, enqueue, commit, remove_item,
  take_next, claimed, ended, has_room, find_in, find_item, mark, discard_all, discard_provisional,
  begun, confirmed, provisional_ids, take_first, executes, has_provisional, queue_of, is_leaving,
  popped,
}
use fakedetector.Lifecycle.Scheduler.Tally.{tally}
use fakedetector.Lifecycle.Scheduler.Order.{IsOrderly}
use fakedetector.Lifecycle.Scheduler.Histories.{
  Reach, here, next, starts, enqueues, commits, takes, begins_shutdown, Reach-IsOrderly,
}
use fakedetector.Lifecycle.Scheduler.Drain.{drained, take_progress, taken_once}

abbrev task : AnalysisTask
task =
    let fresh = fresh_task 1 "a" 10 audio "config" 7 8 in
    record fresh {
      context = record fresh.context { stage = ProcessingStage.queued };
      route = some audio;
    }

abbrev item : QueueItem
item = record { analysis_id = "a"; executor = 4; dispatchable = true }

abbrev started : Scheduler
started = record (new_scheduler 1 1 1) { state = running }

abbrev pending : Scheduler
pending = record started {
  audio_queue = (record item { dispatchable = false }) ∷ [];
  analysis_ids = "a" ∷ [];
}

abbrev ready : Scheduler
ready = record pending { audio_queue = item ∷ [] }

abbrev leaving : Scheduler
leaving = record ready { state = shutting_down; shutdown_in_progress = true }

abbrev empty : Scheduler
empty = record leaving { audio_queue = []; analysis_ids = [] }

abbrev accepts : Bool → String → Result (Unit {0})
accepts execute id = ok tt

-- the capacity is 1
full : enqueue task 5 ready ≡ err queue_state
unfolding enqueue has_room fresh_task new_scheduler
full = refl

-- a confirmed item stays
kept : remove_item "a" ready ≡ ready
unfolding remove_item has_provisional new_scheduler
kept = refl

history : Reach (new_scheduler 1 1 1) leaving
unfolding new_scheduler start enqueue has_room fresh_task commit find_in find_item mark begun
    discard_provisional confirmed provisional_ids discard_all
history =
    let one : Reach (new_scheduler 1 1 1) started = next here (starts true refl) in
    let two : Reach (new_scheduler 1 1 1) pending = next one (enqueues task 4 refl) in
    let three : Reach (new_scheduler 1 1 1) ready = next two (commits "a" refl) in
    next three (begins_shutdown true refl)

taking : take_next audio accepts leaving ≡ ok (claimed item true empty)
unfolding new_scheduler take_first executes discard
taking = refl

Reach-IsOrderly_example : IsOrderly leaving
Reach-IsOrderly_example = Reach-IsOrderly 1 1 1 leaving history

ending : take_next audio accepts empty ≡ ok ended
unfolding new_scheduler take_first
ending = refl

drained_example : (queue_of audio empty ≡ []) × (is_leaving empty.state ≡ true)
drained_example =
    drained 1 1 1 audio accepts empty (next history (takes audio accepts item true taking)) ending

take_progress_example :
    take_next audio accepts leaving
    ≡ ok (claimed item (executes leaving) (popped audio item [] leaving))
unfolding new_scheduler
take_progress_example = take_progress 1 1 1 audio accepts leaving item [] history refl refl refl

taken_once_example :
    (item.dispatchable ≡ true)
    × (accepts true "a" ≡ ok tt)
    × (contains empty.analysis_ids "a" ≡ false)
    × (tally "a" empty.image_queue ≡ 0)
    × (tally "a" empty.audio_queue ≡ 0)
    × (tally "a" empty.video_queue ≡ 0)
taken_once_example = taken_once 1 1 1 audio accepts leaving empty item true history taking
