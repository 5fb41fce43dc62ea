-- ===== src/Lifecycle/Scheduler/Tally.antt =====
-- How often an id is queued, before and after each change of a queue.
use fakedetector.Prelude.{
  ℕ, ◌+◌, ◌≤◌, String, Bool, true, false, not, ◌&&◌, List, [], ◌∷◌, ◌++◌, ◌≡◌, refl, arith, length,
  contains, str_eq, eq_iff, contains-discard, discard,
}
use fakedetector.Lifecycle.Scheduler.{
  QueueItem, discard_all, mark, has_provisional, drop_provisional, confirmed, provisional_ids,
}

abbrev pub one_if : Bool → ℕ
one_if true = 1
one_if false = 0

-- The number of items of an id.
unfoldable pub tally : String → List QueueItem → ℕ
tally x [] = 0
tally x (i ∷ q) = one_if (str_eq i.analysis_id x) + tally x q

pub tally-append : (x : String) (q r : List QueueItem) → tally x (q ++ r) ≡ tally x q + tally x r
unfolding tally
tally-append x [] r = omega arith
tally-append x (i ∷ q) r = omega (arith, tally-append x q r)

pub tally-mark : (x id : String) (q : List QueueItem) → tally x (mark id q) ≡ tally x q
unfolding tally mark
tally-mark x id [] = refl
tally-mark x id (i ∷ q) = ground (arith, tally-mark x id q)

pub length-mark : (id : String) (q : List QueueItem) → length (mark id q) ≡ length q
unfolding mark
length-mark id [] = refl
length-mark id (i ∷ q) = ground (arith, length-mark id q)

pub tally-drop :
    (x id : String) (q : List QueueItem)
    → has_provisional id q ≡ true
    → tally x q ≡ one_if (str_eq id x) + tally x (drop_provisional id q)
unfolding tally has_provisional drop_provisional
tally-drop x id [] h = cc
tally-drop x id (i ∷ q) h = ground (arith, tally-drop x id q, eq_iff i.analysis_id id)

pub length-drop : (id : String) (q : List QueueItem) → length (drop_provisional id q) ≤ length q
unfolding drop_provisional
length-drop id [] = omega arith
length-drop id (i ∷ q) = ground (arith, length-drop id q)

pub length-confirmed : (q : List QueueItem) → length (confirmed q) ≤ length q
unfolding confirmed
length-confirmed [] = omega arith
length-confirmed (i ∷ q) = ground (arith, length-confirmed q)

-- Every item is confirmed.
unfoldable pub all_confirmed : List QueueItem → Bool
all_confirmed [] = true
all_confirmed (i ∷ q) = i.dispatchable && all_confirmed q

pub confirmed-all : (q : List QueueItem) → all_confirmed (confirmed q) ≡ true
unfolding confirmed all_confirmed
confirmed-all [] = refl
confirmed-all (i ∷ q) = ground (arith, confirmed-all q)

pub drop-all :
    (id : String) (q : List QueueItem)
    → all_confirmed q ≡ true
    → all_confirmed (drop_provisional id q) ≡ true
unfolding drop_provisional all_confirmed
drop-all id [] h = refl
drop-all id (i ∷ q) h = ground (arith, drop-all id q)

pub contains-discard_all :
    (x : String) (removed ids : List String)
    → contains (discard_all removed ids) x ≡ (contains ids x && not (contains removed x))
unfolding discard_all
contains-discard_all x [] ids = ground arith
contains-discard_all x (id ∷ removed) ids =
    ground (arith, contains-discard_all x removed (discard id ids), contains-discard x id ids)

-- Discarding the provisional items leaves the count of an id that has none among them, and an id
-- that has one is no longer counted for it.
pub tally-confirmed :
    (x : String) (q : List QueueItem)
    → tally x q ≤ 1
    → tally x (confirmed q) + one_if (contains (provisional_ids q) x) ≡ tally x q
unfolding tally confirmed provisional_ids
tally-confirmed x [] h = refl
tally-confirmed x (i ∷ q) h = ground (arith, tally-confirmed x q, eq_iff i.analysis_id x)
