-- ===== src/Lifecycle/Receiver/Atomic.antt =====
-- That `accept` of fakedetector/lifecycle/receiver.py is all or nothing.
use fakedetector.Prelude.{
  ℕ, String, Bool, false, none, List, ◌≡◌, refl, ap, ◌∙◌, find, stage4_receiver, Error,
}
use fakedetector.Prelude.Runs.{Run, returned, raised, WhereRaised}
use fakedetector.Domain.{MediaType}
use fakedetector.Lifecycle.Queue.{TaskQueue, IsLawful}
use fakedetector.Lifecycle.Receiver.Reserving.{prepare-raised, prepare-returned}
use fakedetector.Lifecycle.Receiver.Pending.{Early, Late, hand_over-raises, undone}
use fakedetector.Lifecycle.Receiver.{
  World, Call, Stage3Accepted, PathFacts, hand_over, undo, prepare, accept, handled,
  after_reservation,
}

same_raise :
    {W : Type 0} {x y : Error} {v u : W} (r : Run W (Unit {0}))
    → r ≡ raised x u
    → r ≡ raised y v
    → (y ≡ x) × (v ≡ u)
same_raise r e f = (cc, cc)

module _ (Q : TaskQueue) {IsValid : Q.State → Type 0} {holds : String → Q.State → Bool}
    (L : IsLawful Q IsValid holds) (paths : PathFacts) (bindings : List (MediaType × ℕ))
    (snapshot : String) (call : Call) (a : Stage3Accepted) (w : World Q.State) where
  -- An `accept` that raises has changed neither the registry nor the queue, and raises the
  -- receiver's own error, whatever failed: the checks of the input, a duplicate, the route, the
  -- clock, or the queue. The queue meets its protocol, and does not hold the identity before the call.
  pub accept_atomic :
      {x : Error} {v : World Q.State}
      → IsValid w.queue
      → holds a.analysis_id w.queue ≡ false
      → accept Q paths bindings snapshot call a w ≡ raised x v
      → (x ≡ stage4_receiver) × (v.registry ≡ w.registry) × (v.queue ≡ w.queue)
  unfolding accept
  accept_atomic {x} {v} valid absent e =
      go (prepare Q paths snapshot call a w) refl (prepare-raised Q paths snapshot call a w) e
    where
      undone-same :
          (found : find a.analysis_id w.registry.tasks ≡ none)
          (run : Run (World Q.State) (Unit {0}))
          → WhereRaised (Late Q L a.analysis_id w.registry w.queue found valid) run
          → handled Q (undo Q a.analysis_id) run ≡ raised x v
          → (x ≡ stage4_receiver) × (v.registry ≡ w.registry) × (v.queue ≡ w.queue)
      undone-same found (returned done u) k f = cc
      undone-same found (raised y u) k f =
          let (same, after) = same_raise _ refl f in
          let back = undone Q L a.analysis_id w.registry w.queue found valid u k in
          (same, ap (λ z. z.registry) (after ∙ back), ap (λ z. z.queue) (after ∙ back))

      go :
          (run : Run (World Q.State) (Unit {0}))
          → prepare Q paths snapshot call a w ≡ run
          → WhereRaised (λ v. v ≡ w) run
          → after_reservation Q bindings a call run ≡ raised x v
          → (x ≡ stage4_receiver) × (v.registry ≡ w.registry) × (v.queue ≡ w.queue)
      go (raised y u) p k f =
          let (same, after) = same_raise _ refl f in
          (same, ap (λ z. z.registry) (after ∙ k), ap (λ z. z.queue) (after ∙ k))
      go (returned done u) p k f =
          let (t, made, named, free, grown) = prepare-returned Q paths snapshot call a w p in
          let early : Early Q L a.analysis_id w.registry w.queue free valid u =
            (t, named, ap (λ z. z.registry) grown, ap (λ z. z.queue) grown) in
          undone-same free (hand_over Q bindings a.analysis_id a.validated_file.media_type call u)
            (hand_over-raises Q L a.analysis_id w.registry w.queue free valid bindings _ call u
              absent early)
            f
