-- ===== src/Lifecycle/Scheduler/Take.antt =====
-- What an iteration of `_take_next` of fakedetector/lifecycle/scheduler.py can do.
use fakedetector.Prelude.{
  String, Bool, true, false, List, [], ◌∷◌, ◌≡◌, refl, sym, subst, arith, contains, Result, ok,
  guard, key_error, ◌≢◌, then-ok, ok-injective, ◌>>◌,
}
use fakedetector.Domain.{MediaType}
use fakedetector.Lifecycle.Scheduler.{
  Scheduler, QueueItem, is_leaving, Taken, claimed, popped, executes, take_first, ended, waits,
  idle,
}
use fakedetector.Lifecycle.Scheduler.Tally.{all_confirmed}
use fakedetector.Lifecycle.Scheduler.Order.{left-true}

idle-not_claimed :
    (s : Scheduler) (item : QueueItem) (execute : Bool) (t : Scheduler)
    → idle s ≢ claimed item execute t
idle-not_claimed s item execute t = ground arith

idle-ended : (s : Scheduler) → idle s ≡ ended → is_leaving s.state ≡ true
idle-ended s e = ground arith

module _ (m : MediaType) (claim : Bool → String → Result (Unit {0})) (s : Scheduler) where
  -- What was so when an item was taken.
  pub record IsTaken (q : List QueueItem) (item : QueueItem) (execute : Bool) (t : Scheduler)
      : Type 0 where
    pub rest : List QueueItem
    pub head : q ≡ item ∷ rest
    pub committed : item.dispatchable ≡ true
    pub accepted : claim execute item.analysis_id ≡ ok tt
    pub mode : execute ≡ executes s
    pub left : t ≡ popped m item rest s

  abbrev IsTakenResult : List QueueItem → Taken → Type 0
  IsTakenResult q (claimed item execute t) = IsTaken q item execute t
  IsTakenResult q ended = Unit
  IsTakenResult q waits = Unit

  pub take_first-IsTaken :
      (q : List QueueItem) {item : QueueItem} {execute : Bool} {t : Scheduler}
      → take_first m claim s q ≡ ok (claimed item execute t)
      → IsTaken q item execute t
  unfolding take_first
  take_first-IsTaken [] {item} {execute} {t} e =
      elim (idle-not_claimed s item execute t (ok-injective (sym e))) [ ]
  take_first-IsTaken (i ∷ rest) {item} {execute} {t} e = go i.dispatchable refl e
    where
      go :
          (b : Bool)
          → i.dispatchable ≡ b
          → elim b [
            | false ↦ ok (idle s)
            | true ↦ do
              claim (executes s) i.analysis_id
              guard (contains s.analysis_ids i.analysis_id) key_error
              ok (claimed i (executes s) (popped m i rest s))
          ]
            ≡ ok (claimed item execute t)
          → IsTaken (i ∷ rest) item execute t
      go false d f = elim (idle-not_claimed s item execute t (ok-injective (sym f))) [ ]
      go true d f =
          let (accepted, f) = then-ok (claim (executes s) i.analysis_id) _ f in
          let (_, f) = then-ok (guard (contains s.analysis_ids i.analysis_id) key_error) _ f in
          subst (IsTakenResult (i ∷ rest)) (sym (ok-injective f)) (record {
            rest = rest;
            head = refl;
            committed = d;
            accepted = accepted;
            mode = refl;
            left = refl;
          })

  -- Where a scheduler that leaves has no provisional item, a worker ends on an empty queue.
  pub take_first-ended :
      (q : List QueueItem)
      → take_first m claim s q ≡ ok ended
      → (is_leaving s.state ≡ true → all_confirmed q ≡ true)
      → (q ≡ []) × (is_leaving s.state ≡ true)
  unfolding take_first all_confirmed
  take_first-ended [] e h = (refl, idle-ended s (ok-injective (sym e)))
  take_first-ended (i ∷ rest) e h = go i.dispatchable refl e
    where
      go :
          (b : Bool)
          → i.dispatchable ≡ b
          → elim b [
            | false ↦ ok (idle s)
            | true ↦ do
              claim (executes s) i.analysis_id
              guard (contains s.analysis_ids i.analysis_id) key_error
              ok (claimed i (executes s) (popped m i rest s))
          ]
            ≡ ok ended
          → ((i ∷ rest) ≡ []) × (is_leaving s.state ≡ true)
      go false d f = cc (
        d,
        left-true i.dispatchable (all_confirmed rest) (h (idle-ended s (ok-injective (sym f)))),
      )
      go true d f =
          let (accepted, f) = then-ok (claim (executes s) i.analysis_id) _ f in
          let (_, f) = then-ok (guard (contains s.analysis_ids i.analysis_id) key_error) _ f in
          cc (ok-injective f)
