-- ===== src/Lifecycle/Queue/Fifo.antt =====
-- `DeterministicTaskQueue` of fakedetector/lifecycle/execution.py: the queue of the single-threaded
-- runner.
use fakedetector.Prelude.{
  ℕ, ◌+◌, String, Bool, true, false, ◌&&◌, not, Option, none, some, List, [], ◌∷◌, ◌++◌, ◌≡◌, refl,
  sym, subst, ap, arith, Result, ok, queue_state, key_error, ◌>>◌, guard, contains, discard,
  contains-discard, discard_added, if◌then◌else◌, str_eq, eq_iff, Bool-cases, inl, inr, ◌⊎◌,
}
use fakedetector.Lifecycle.Task.{AnalysisTask}
use fakedetector.Lifecycle.Scheduler.{pending_task}
use fakedetector.Lifecycle.Scheduler.Tally.{one_if}
use fakedetector.Lifecycle.Queue.{TaskQueue, IsLawful}

pub record DeterministicTaskQueue : Type 0 where
  pub items : List (String × ℕ)
  pub analysis_ids : List String

unfoldable pub empty_queue : DeterministicTaskQueue
empty_queue = record { items = []; analysis_ids = [] }

unfoldable pub may_enqueue : AnalysisTask → DeterministicTaskQueue → Bool
may_enqueue task q = not (contains q.analysis_ids task.context.analysis_id) && pending_task task

abbrev pub appended : String → ℕ → DeterministicTaskQueue → DeterministicTaskQueue
appended id executor q = record {
  items = q.items ++ (id, executor) ∷ [];
  analysis_ids = id ∷ q.analysis_ids;
}

unfoldable pub enqueue : AnalysisTask → ℕ → DeterministicTaskQueue → Result DeterministicTaskQueue
enqueue task executor q = do
  guard (may_enqueue task q) queue_state
  ok (appended task.context.analysis_id executor q)

-- the items of another identity
unfoldable pub without : String → List (String × ℕ) → List (String × ℕ)
without id [] = []
without id (i ∷ q) = if str_eq i.0 id then without id q else i ∷ without id q

unfoldable pub remove : String → DeterministicTaskQueue → DeterministicTaskQueue
remove id q =
    if contains q.analysis_ids id
    then record { items = without id q.items; analysis_ids = discard id q.analysis_ids }
    else q

unfoldable pub commit : String → DeterministicTaskQueue → Result DeterministicTaskQueue
commit id q = do guard (contains q.analysis_ids id) queue_state; ok q

-- The KeyError of `set.remove` is an error here.
unfoldable pub pop_items :
    List (String × ℕ) → List String → Result (Option (String × ℕ) × DeterministicTaskQueue)
pop_items [] ids = ok (none, record { items = []; analysis_ids = ids })
pop_items (i ∷ rest) ids = do
  guard (contains ids i.0) key_error
  ok (some i, record { items = rest; analysis_ids = discard i.0 ids })

abbrev pub pop_next : DeterministicTaskQueue → Result (Option (String × ℕ) × DeterministicTaskQueue)
pop_next q = pop_items q.items q.analysis_ids

-- How many items an identity has.
unfoldable pub entries : String → List (String × ℕ) → ℕ
entries x [] = 0
entries x (i ∷ q) = one_if (str_eq i.0 x) + entries x q

-- Each identity of the set has one item, and no other identity has an item.
abbrev pub IsInStep : DeterministicTaskQueue → Type 0
IsInStep q = (x : String) → entries x q.items ≡ one_if (contains q.analysis_ids x)

entries-append :
    (x : String) (q r : List (String × ℕ)) → entries x (q ++ r) ≡ entries x q + entries x r
unfolding entries
entries-append x [] r = omega arith
entries-append x (i ∷ q) r = omega (arith, entries-append x q r)

entries-without :
    (x id : String) (q : List (String × ℕ))
    → entries x (without id q) ≡ (if str_eq id x then 0 else entries x q)
unfolding entries without
entries-without x id [] = ground arith
entries-without x id (i ∷ q) =
    ground (arith, entries-without x id q, eq_iff i.0 id, eq_iff i.0 x, eq_iff id x)

without-append :
    (id : String) (executor : ℕ) (q : List (String × ℕ))
    → entries id q ≡ 0
    → without id (q ++ (id, executor) ∷ []) ≡ q
unfolding entries without
without-append id executor [] h = ground (arith, eq_iff id id)
without-append id executor (i ∷ q) h = ground (arith, without-append id executor q)

enqueue_inv :
    (task : AnalysisTask) (executor : ℕ) (q : DeterministicTaskQueue) {r : DeterministicTaskQueue}
    → enqueue task executor q ≡ ok r
    → (contains q.analysis_ids task.context.analysis_id ≡ false)
      × (r ≡ appended task.context.analysis_id executor q)
unfolding enqueue may_enqueue
enqueue_inv task executor q e = (ground arith, ground arith)

commit_inv :
    (id : String) (q : DeterministicTaskQueue) {r : DeterministicTaskQueue}
    → commit id q ≡ ok r
    → r ≡ q
unfolding commit
commit_inv id q e = ground arith

appended-IsInStep :
    (id : String) (executor : ℕ) (q : DeterministicTaskQueue)
    → contains q.analysis_ids id ≡ false
    → IsInStep q
    → IsInStep (appended id executor q)
unfolding entries
appended-IsInStep id executor q fresh h x =
    ground (arith, entries-append x q.items ((id, executor) ∷ []), h x, eq_iff id x)

pub remove-IsInStep :
    (id : String) (q : DeterministicTaskQueue) → IsInStep q → IsInStep (remove id q)
unfolding remove
remove-IsInStep id q h x = elim (Bool-cases (contains q.analysis_ids id)) [
  | inl t ↦
      rw t (ground (arith, h x, entries-without x id q.items, contains-discard x id q.analysis_ids))
  | inr f ↦ rw f (h x)
]

remove-appended :
    (id : String) (executor : ℕ) (q : DeterministicTaskQueue)
    → contains q.analysis_ids id ≡ false
    → IsInStep q
    → remove id (appended id executor q) ≡ q
unfolding remove
remove-appended id executor q fresh h =
    let none_there : entries id q.items ≡ 0 = ground (arith, h id) in
    rw
      (
        (eq_iff id id).1 refl,
        without-append id executor q.items none_there,
        discard_added id q.analysis_ids fresh,
      )
      refl

abbrev pub holds : String → DeterministicTaskQueue → Bool
holds id q = contains q.analysis_ids id

abbrev pub fifo : TaskQueue
fifo = record {
  State = DeterministicTaskQueue;
  enqueue = enqueue;
  remove = remove;
  commit = commit;
}

-- The queue of the single-threaded runner meets the protocol that the receiver relies on: an
-- enqueued identity is new and then there, `remove` undoes `enqueue` and leaves the queue alone
-- when the identity is not there, and each method keeps the deque and the set in step.
pub fifo-IsLawful : IsLawful fifo IsInStep holds
unfolding remove
fifo-IsLawful = record {
  enqueue-IsValid = λ task executor q e h.
      let (fresh, made) = enqueue_inv task executor q e in
      subst IsInStep (sym made) (appended-IsInStep _ executor q fresh h);
  commit-IsValid = λ id q e h. subst IsInStep (sym (commit_inv id q e)) h;
  remove-IsValid = remove-IsInStep;
  enqueue-fresh = λ task executor q e. (enqueue_inv task executor q e).0;
  enqueue-holds = λ task executor q e.
      let (fresh, made) = enqueue_inv task executor q e in
      let id = task.context.analysis_id in
      subst (λ r. contains r.analysis_ids id ≡ true) (sym made) (rw ((eq_iff id id).1 refl) refl);
  commit-holds = λ id j q e. ap (λ r. contains r.analysis_ids j) (commit_inv id q e);
  remove-absent = λ id q h absent. rw absent refl;
  remove-enqueue = λ task executor q e h.
      let (fresh, made) = enqueue_inv task executor q e in
      subst (λ r. remove task.context.analysis_id r ≡ q) (sym made)
        (remove-appended _ executor q fresh h);
}

head-contained :
    (i : String × ℕ) (rest : List (String × ℕ)) (ids : List String)
    → entries i.0 (i ∷ rest) ≡ one_if (contains ids i.0)
    → contains ids i.0 ≡ true
unfolding entries
head-contained i rest ids h = ground (arith, eq_iff i.0 i.0)

popped_step :
    (x : String) (i : String × ℕ) (rest : List (String × ℕ)) (ids : List String)
    → entries x (i ∷ rest) ≡ one_if (contains ids x)
    → entries x rest ≡ one_if (contains (discard i.0 ids) x)
unfolding entries
popped_step x i rest ids h = ground (arith, contains-discard x i.0 ids)

popped-IsInStep :
    (items : List (String × ℕ)) (ids : List String)
    → ((x : String) → entries x items ≡ one_if (contains ids x))
    → ((items ≡ [])
        × (pop_items items ids ≡ ok (none, record { items = items; analysis_ids = ids })))
      ⊎ ((i : String × ℕ) × (r : DeterministicTaskQueue) × (items ≡ i ∷ r.items)
          × (pop_items items ids ≡ ok (some i, r))
          × IsInStep r)
unfolding pop_items
popped-IsInStep [] ids h = inl (refl, refl)
popped-IsInStep (i ∷ rest) ids h =
    let r : DeterministicTaskQueue = record { items = rest; analysis_ids = discard i.0 ids } in
    let there : contains ids i.0 ≡ true = head-contained i rest ids (h i.0) in
    inr (i, r, refl, rw there refl, λ x. popped_step x i rest ids (h x))

-- A queue in step gives up its oldest item and stays in step, or is empty and says so: `pop_next`
-- never raises.
pub pop_next-IsInStep :
    (q : DeterministicTaskQueue)
    → IsInStep q
    → ((q.items ≡ []) × (pop_next q ≡ ok (none, q)))
      ⊎ ((i : String × ℕ) × (r : DeterministicTaskQueue) × (q.items ≡ i ∷ r.items)
          × (pop_next q ≡ ok (some i, r))
          × IsInStep r)
pop_next-IsInStep q h = popped-IsInStep q.items q.analysis_ids h
