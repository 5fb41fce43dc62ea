-- ===== src/Lifecycle/Scheduler/Order.antt =====
-- What holds of every scheduler that `start`, `enqueue`, `commit`, `remove`, `shutdown` and the
-- workers of fakedetector/lifecycle/scheduler.py can reach.
use fakedetector.Prelude.{
  ℕ, suc, ◌+◌, ◌≤◌, String, Bool, true, false, not, ◌&&◌, ◌||◌, List, [], ◌∷◌, ◌++◌, ◌≡◌, refl, sym,
  subst, arith, length, length-append, contains, eq_iff, Option, some, none, ok, err, guard,
  queue_state, then-ok, guard-ok, ok-injective, ◌>>◌,
}
use fakedetector.Domain.{MediaType, image, audio, video}
use fakedetector.Lifecycle.Task.{AnalysisTask}
use fakedetector.Lifecycle.Scheduler.{
  Scheduler, QueueItem, limit_of, queue_of, with_queue, is_running, is_leaving, has_room, enqueue,
  commit, find_in, mark, placed, new_item,
}
use fakedetector.Lifecycle.Scheduler.Tally.{
  one_if, tally, tally-append, tally-mark, length-mark, all_confirmed,
}

-- The capacities bound the queues, and `analysis_ids` holds the queued ids, each queued once.
pub record IsTallied (s : Scheduler) : Type 0 where
  pub image_bound : length s.image_queue ≤ s.image_limit
  pub audio_bound : length s.audio_queue ≤ s.audio_limit
  pub video_bound : length s.video_queue ≤ s.video_limit
  pub counted :
      (x : String)
      → tally x s.image_queue + tally x s.audio_queue + tally x s.video_queue
        ≡ one_if (contains s.analysis_ids x)

-- Only a scheduler that leaves is in a shutdown, and only one that runs has provisional items.
unfoldable pub is_settled : Scheduler → Bool
is_settled s =
    (is_leaving s.state || not s.shutdown_in_progress)
    && (is_running s.state
        || (all_confirmed s.image_queue
            && all_confirmed s.audio_queue
            && all_confirmed s.video_queue))

abbrev pub IsOrderly : Scheduler → Type 0
IsOrderly s = IsTallied s × (is_settled s ≡ true)

abbrev Balances : List QueueItem → List QueueItem → List String → List String → Type 0
Balances q r ids kept =
    (x : String) → tally x r + one_if (contains ids x) ≡ tally x q + one_if (contains kept x)

pub changed-IsTallied :
    (m : MediaType) (r : List QueueItem) (kept : List String) (s : Scheduler)
    → IsTallied s
    → length r ≤ limit_of m s
    → Balances (queue_of m s) r s.analysis_ids kept
    → IsTallied (record (with_queue m r s) { analysis_ids = kept })
changed-IsTallied image r kept s h bound b = record {
  image_bound = bound;
  audio_bound = h.audio_bound;
  video_bound = h.video_bound;
  counted = λ x. omega (arith, h.counted x, b x);
}
changed-IsTallied audio r kept s h bound b = record {
  image_bound = h.image_bound;
  audio_bound = bound;
  video_bound = h.video_bound;
  counted = λ x. omega (arith, h.counted x, b x);
}
changed-IsTallied video r kept s h bound b = record {
  image_bound = h.image_bound;
  audio_bound = h.audio_bound;
  video_bound = bound;
  counted = λ x. omega (arith, h.counted x, b x);
}

pub queue-bound :
    (m : MediaType) (s : Scheduler) → IsTallied s → length (queue_of m s) ≤ limit_of m s
queue-bound image s h = h.image_bound
queue-bound audio s h = h.audio_bound
queue-bound video s h = h.video_bound

-- an id that is queued is in the set
pub queue-contained :
    (m : MediaType) (s : Scheduler) (x : String)
    → IsTallied s
    → tally x (queue_of m s) ≤ one_if (contains s.analysis_ids x)
queue-contained image s x h = omega (arith, h.counted x)
queue-contained audio s x h = omega (arith, h.counted x)
queue-contained video s x h = omega (arith, h.counted x)

pub one_if-bound : (b : Bool) → one_if b ≤ 1
one_if-bound true = omega arith
one_if-bound false = omega arith

running-IsOrderly :
    (m : MediaType) (r : List QueueItem) (kept : List String) (s : Scheduler)
    → is_running s.state ≡ true
    → is_settled s ≡ true
    → IsTallied (record (with_queue m r s) { analysis_ids = kept })
    → IsOrderly (record (with_queue m r s) { analysis_ids = kept })
unfolding is_settled
running-IsOrderly image r kept s e h t = (t, ground arith)
running-IsOrderly audio r kept s e h t = (t, ground arith)
running-IsOrderly video r kept s e h t = (t, ground arith)

pub left-true : (a b : Bool) → (a && b) ≡ true → a ≡ true
left-true true b e = refl
left-true false b e = e

placed-Balances :
    (item : QueueItem) (q : List QueueItem) (ids : List String)
    → contains ids item.analysis_id ≡ false
    → Balances q (q ++ (item ∷ [])) ids (item.analysis_id ∷ ids)
unfolding tally
placed-Balances item q ids fresh x =
    ground (arith, tally-append x q (item ∷ []), fresh, eq_iff item.analysis_id x)

placed-IsOrderly :
    (m : MediaType) (item : QueueItem) (s : Scheduler)
    → has_room item.analysis_id m s ≡ true
    → IsOrderly s
    → IsOrderly (placed m item s)
unfolding has_room
placed-IsOrderly m item s room h =
    let fresh : contains s.analysis_ids item.analysis_id ≡ false = ground arith in
    let space : suc (length (queue_of m s)) ≤ limit_of m s = ground arith in
    let runs : is_running s.state ≡ true = ground arith in
    running-IsOrderly m _ _ s runs h.1 (
      changed-IsTallied m _ _ s h.0 (omega (arith, space, length-append (queue_of m s) (item ∷ [])))
        (placed-Balances item (queue_of m s) s.analysis_ids fresh))

pub enqueue_inv :
    (task : AnalysisTask) (executor : ℕ) (s : Scheduler) {t : Scheduler}
    → enqueue task executor s ≡ ok t
    → (has_room task.context.analysis_id task.validated_media s ≡ true)
      × (t ≡ placed task.validated_media (new_item task executor) s)
unfolding enqueue
enqueue_inv task executor s e =
    let (allowed, e) = then-ok (guard _ _) _ e in
    (left-true _ _ (left-true _ _ (guard-ok _ _ allowed)), ok-injective e)

pub enqueue-IsOrderly :
    (task : AnalysisTask) (executor : ℕ) (s : Scheduler) {t : Scheduler}
    → enqueue task executor s ≡ ok t
    → IsOrderly s
    → IsOrderly t
enqueue-IsOrderly task executor s e h =
    let (room, made) = enqueue_inv task executor s e in
    subst IsOrderly (sym made)
      (placed-IsOrderly task.validated_media (new_item task executor) s room h)

with_queue-ids :
    (m : MediaType) (r : List QueueItem) (s : Scheduler)
    → (record (with_queue m r s) { analysis_ids = s.analysis_ids }) ≡ with_queue m r s
with_queue-ids image r s = refl
with_queue-ids audio r s = refl
with_queue-ids video r s = refl

marked-IsOrderly :
    (m : MediaType) (id : String) (s : Scheduler)
    → is_running s.state ≡ true
    → IsOrderly s
    → IsOrderly (with_queue m (mark id (queue_of m s)) s)
marked-IsOrderly m id s runs h =
    let r = mark id (queue_of m s) in
    let bound : length r ≤ limit_of m s =
      omega (arith, length-mark id (queue_of m s), queue-bound m s h.0) in
    subst IsOrderly (with_queue-ids m r s) (
      running-IsOrderly m r _ s runs h.1 (
        changed-IsTallied m r s.analysis_ids s h.0 bound
          (λ x. omega (arith, tally-mark x id (queue_of m s)))))

pub commit_inv :
    (id : String) (s : Scheduler) {t : Scheduler}
    → commit id s ≡ ok t
    → (is_running s.state ≡ true)
      × ((m : MediaType) × (t ≡ with_queue m (mark id (queue_of m s)) s))
unfolding commit
commit_inv id s {t} e =
    let (runs, e) = then-ok (guard _ queue_state) _ e in (guard-ok _ _ runs, found (find_in id s) e)
  where
    found :
        (o : Option (MediaType × QueueItem))
        → elim o [
          | none ↦ err queue_state
          | some (media, item) ↦ do
            guard (not item.dispatchable) queue_state
            ok (with_queue media (mark id (queue_of media s)) s)
        ]
          ≡ ok t
        → (m : MediaType) × (t ≡ with_queue m (mark id (queue_of m s)) s)
    found none e = cc
    found (some (m, item)) e = let (_, e) = then-ok (guard _ _) _ e in (m, ok-injective e)

pub commit-IsOrderly :
    (id : String) (s : Scheduler) {t : Scheduler} → commit id s ≡ ok t → IsOrderly s → IsOrderly t
commit-IsOrderly id s e h =
    let (runs, (m, made)) = commit_inv id s e in
    subst IsOrderly (sym made) (marked-IsOrderly m id s runs h)
