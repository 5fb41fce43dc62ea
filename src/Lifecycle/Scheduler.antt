-- ===== src/Lifecycle/Scheduler.antt =====
-- `BoundedLocalScheduler` of fakedetector/lifecycle/scheduler.py: the bounded queues and the state,
-- a function for each critical section of its condition. Threads, waits and sweeps are left out.
pub mod Tally
pub mod Order
pub mod Release
pub mod Leaving
pub mod Take
pub mod Histories
pub mod Drain
use fakedetector.Prelude.{
  ℕ, String, Bool, true, false, ◌&&◌, ◌||◌, not, Option, none, some, List, [], ◌∷◌, ◌++◌, str_eq,
  ltb, length, contains, is_none, Result, ok, err, queue_state, scheduler_state, key_error, guard,
  ◌>>=◌, ◌>>◌, if◌then◌else◌, discard,
}
use fakedetector.Domain.{
  MediaType, image, audio, video, AnalysisStatus, ProcessingStage, same_media, same_status,
}
use fakedetector.Lifecycle.Task.{AnalysisTask}
use fakedetector.Lifecycle.Staging.{is_stage}

-- _SchedulerState
pub data SchedulerState : Type 0 where
  not_started running shutting_down stopped : SchedulerState

pub record QueueItem : Type 0 where
  pub analysis_id : String
  pub executor : ℕ
  pub dispatchable : Bool

-- One field per media type for the limits and the queues. `terminated` says that `_termination` is
-- set.
pub record Scheduler : Type 0 where
  pub image_limit : ℕ
  pub audio_limit : ℕ
  pub video_limit : ℕ
  pub image_queue : List QueueItem
  pub audio_queue : List QueueItem
  pub video_queue : List QueueItem
  pub analysis_ids : List String
  pub state : SchedulerState
  pub drain : Bool
  pub shutdown_in_progress : Bool
  pub terminated : Bool

unfoldable pub new_scheduler : ℕ → ℕ → ℕ → Scheduler
new_scheduler i a v = record {
  image_limit = i;
  audio_limit = a;
  video_limit = v;
  image_queue = [];
  audio_queue = [];
  video_queue = [];
  analysis_ids = [];
  state = not_started;
  drain = true;
  shutdown_in_progress = false;
  terminated = false;
}

abbrev pub limit_of : MediaType → Scheduler → ℕ
limit_of image s = s.image_limit
limit_of audio s = s.audio_limit
limit_of video s = s.video_limit

abbrev pub queue_of : MediaType → Scheduler → List QueueItem
queue_of image s = s.image_queue
queue_of audio s = s.audio_queue
queue_of video s = s.video_queue

abbrev pub with_queue : MediaType → List QueueItem → Scheduler → Scheduler
with_queue image q s = record s { image_queue = q }
with_queue audio q s = record s { audio_queue = q }
with_queue video q s = record s { video_queue = q }

abbrev pub is_running : SchedulerState → Bool
is_running running = true
is_running _ = false

abbrev pub is_shutting_down : SchedulerState → Bool
is_shutting_down shutting_down = true
is_shutting_down _ = false

abbrev pub is_leaving : SchedulerState → Bool
is_leaving shutting_down = true
is_leaving stopped = true
is_leaving _ = false

-- set.difference_update
unfoldable pub discard_all : List String → List String → List String
discard_all [] xs = xs
discard_all (id ∷ removed) xs = discard_all removed (discard id xs)

abbrev is_routed : MediaType → Option MediaType → Bool
is_routed m none = false
is_routed m (some r) = same_media r m

abbrev pub pending_task : AnalysisTask → Bool
pending_task task =
    is_none task.queued_at
    && not task.execution_claimed
    && same_status task.context.status AnalysisStatus.queued
    && is_stage task.context.stage ProcessingStage.queued

-- the guards of `enqueue` on the scheduler
unfoldable pub has_room : String → MediaType → Scheduler → Bool
has_room id media s =
    is_running s.state
    && ltb (length (queue_of media s)) (limit_of media s)
    && not (contains s.analysis_ids id)

abbrev pub new_item : AnalysisTask → ℕ → QueueItem
new_item task executor = record {
  analysis_id = task.context.analysis_id;
  executor = executor;
  dispatchable = false;
}

-- queue.append(item); self._analysis_ids.add(item.analysis_id)
abbrev pub placed : MediaType → QueueItem → Scheduler → Scheduler
placed media item s = record (with_queue media (queue_of media s ++ (item ∷ [])) s) {
  analysis_ids = item.analysis_id ∷ s.analysis_ids;
}

unfoldable pub enqueue : AnalysisTask → ℕ → Scheduler → Result Scheduler
enqueue task executor s =
    let media = task.validated_media in
    do
      guard
          (has_room task.context.analysis_id media s
            && pending_task task
            && is_routed media task.route)
          queue_state
      ok (placed media (new_item task executor) s)

-- the first item of the id; its test is the item's `dispatchable`
unfoldable pub find_item : String → List QueueItem → Option QueueItem
find_item id [] = none
find_item id (i ∷ q) = if str_eq i.analysis_id id then some i else find_item id q

-- `item.dispatchable = True` for the item that `find_item` returns
unfoldable pub mark : String → List QueueItem → List QueueItem
mark id [] = []
mark id (i ∷ q) =
    if str_eq i.analysis_id id then (record i { dispatchable = true }) ∷ q else i ∷ mark id q

-- commit: the queue of the item
unfoldable pub find_in : String → Scheduler → Option (MediaType × QueueItem)
find_in id s = elim (find_item id s.image_queue) [
  | some i ↦ some (image, i)
  | none ↦ elim (find_item id s.audio_queue) [
    | some i ↦ some (audio, i)
    | none ↦ elim (find_item id s.video_queue) [ some i ↦ some (video, i) | none ↦ none ]
  ]
]

unfoldable pub commit : String → Scheduler → Result Scheduler
commit id s = do
  guard (is_running s.state) queue_state
  elim (find_in id s) [
    | none ↦ err queue_state
    | some (media, item) ↦ do
      guard (not item.dispatchable) queue_state
      ok (with_queue media (mark id (queue_of media s)) s)
  ]

abbrev provisional_match : String → QueueItem → Bool
provisional_match id i = str_eq i.analysis_id id && not i.dispatchable

unfoldable pub has_provisional : String → List QueueItem → Bool
has_provisional id [] = false
has_provisional id (i ∷ q) = provisional_match id i || has_provisional id q

unfoldable pub drop_provisional : String → List QueueItem → List QueueItem
drop_provisional id [] = []
drop_provisional id (i ∷ q) = if provisional_match id i then q else i ∷ drop_provisional id q

abbrev pub release : String → MediaType → Scheduler → Scheduler
release id media s = record (with_queue media (drop_provisional id (queue_of media s)) s) {
  analysis_ids = discard id s.analysis_ids;
}

-- BoundedLocalScheduler.remove
unfoldable pub remove_item : String → Scheduler → Scheduler
remove_item id s =
    if has_provisional id s.image_queue
    then release id image s
    else if has_provisional id s.audio_queue
    then release id audio s
    else if has_provisional id s.video_queue
    then release id video s
    else s

unfoldable pub confirmed : List QueueItem → List QueueItem
confirmed [] = []
confirmed (i ∷ q) = if i.dispatchable then i ∷ confirmed q else confirmed q

unfoldable pub provisional_ids : List QueueItem → List String
provisional_ids [] = []
provisional_ids (i ∷ q) =
    if i.dispatchable then provisional_ids q else i.analysis_id ∷ provisional_ids q

abbrev pub discard_in : MediaType → Scheduler → Scheduler
discard_in media s = record (with_queue media (confirmed (queue_of media s)) s) {
  analysis_ids = discard_all (provisional_ids (queue_of media s)) s.analysis_ids;
}

unfoldable pub discard_provisional : Scheduler → Scheduler
discard_provisional s = discard_in video (discard_in audio (discard_in image s))

-- start, up to the joins: what it publishes when every worker was launched, or when a launch failed
unfoldable pub start : Bool → Scheduler → Result Scheduler
start launched s = elim s.state [
  | not_started ↦ ok (
      if launched
      then record s { state = running }
      else record s { state = shutting_down; drain = false })
  | _ ↦ err scheduler_state
]

-- start, after the joins of a failed launch
unfoldable pub end_start : Scheduler → Scheduler
end_start s = record s { state = stopped }

-- shutdown, up to the joins: its guard, and what it then does
abbrev pub may_shut_down : Scheduler → Bool
may_shut_down s =
    is_running s.state || (is_shutting_down s.state && s.terminated && not s.shutdown_in_progress)

unfoldable pub begun : Bool → Scheduler → Scheduler
begun drain s =
    if is_running s.state
    then discard_provisional
        (record s { shutdown_in_progress = true; state = shutting_down; drain = drain })
    else record s { shutdown_in_progress = true }

abbrev pub begin_shutdown : Bool → Scheduler → Result Scheduler
begin_shutdown drain s = do guard (may_shut_down s) scheduler_state; ok (begun drain s)

-- shutdown, after the joins
unfoldable pub end_shutdown : Scheduler → Scheduler
end_shutdown s = record s { state = stopped; shutdown_in_progress = false }

unfoldable pub stop_after_worker_termination : Scheduler → Scheduler
stop_after_worker_termination s =
    if is_running s.state
    then discard_provisional (record s { terminated = true; state = shutting_down; drain = false })
    else record s { terminated = true }

-- What an iteration of the loop of `_take_next` does: it hands an item to its worker, to execute or
-- to settle as failed, it ends the worker, or it waits.
pub data Taken : Type 0 where
  claimed : QueueItem → (execute : Bool) → Scheduler → Taken
  ended waits : Taken

unfoldable pub executes : Scheduler → Bool
executes s = not (is_shutting_down s.state && not s.drain)

-- queue.popleft(); self._analysis_ids.remove(item.analysis_id)
abbrev pub popped : MediaType → QueueItem → List QueueItem → Scheduler → Scheduler
popped media item rest s = record (with_queue media rest s) {
  analysis_ids = discard item.analysis_id s.analysis_ids;
}

abbrev pub idle : Scheduler → Taken
idle s = if is_leaving s.state then ended else waits

-- `claim` is the outcome of the processor's `claim_execution`, or of `claim_pending_failure`, for
-- the item at the head. A KeyError of `set.remove` is an error here.
unfoldable pub take_first :
    MediaType → (Bool → String → Result (Unit {0})) → Scheduler → List QueueItem → Result Taken
take_first media claim s [] = ok (idle s)
take_first media claim s (item ∷ rest) = elim item.dispatchable [
  | false ↦ ok (idle s)
  | true ↦ do
    claim (executes s) item.analysis_id
    guard (contains s.analysis_ids item.analysis_id) key_error
    ok (claimed item (executes s) (popped media item rest s))
]

abbrev pub take_next : MediaType → (Bool → String → Result (Unit {0})) → Scheduler → Result Taken
take_next media claim s = take_first media claim s (queue_of media s)
