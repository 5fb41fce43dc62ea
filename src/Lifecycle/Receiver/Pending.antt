-- ===== src/Lifecycle/Receiver/Pending.antt =====
-- What `accept` of fakedetector/lifecycle/receiver.py has changed wherever it raises after the
-- reservation: one task more in the registry, and at most its identity in the queue.
use fakedetector.Prelude.{
  ℕ, String, Bool, false, Option, none, List, ◌≡◌, refl, sym, subst, ap, arith, ◌∙◌, Result, ok,
  err, find, find-snoc, replace-snoc, remove-snoc, ok-injective, bind-ok,
}
use fakedetector.Prelude.Runs.{
  returned, proceed, from_result, Everywhere, WhereRaised, bind-WhereRaised, given-Everywhere,
  change-WhereRaised, change-Everywhere,
}
use fakedetector.Domain.{MediaType, AnalysisStatus, ProcessingStage}
use fakedetector.Lifecycle.Task.{AnalysisTask, AnalysisContext, Datetime, utc}
use fakedetector.Lifecycle.Machine.{transition, project_context}
use fakedetector.Lifecycle.Staging.{staged_transition, bind_route, mark_enqueued}
use fakedetector.Lifecycle.Registry.{TaskRegistry, get, modify, rollback}
use fakedetector.Lifecycle.Registry.Soundness.{modify_inv}
use fakedetector.Core.Clock.{LifecycleClock, now}
use fakedetector.Lifecycle.Queue.{TaskQueue, IsLawful}
use fakedetector.Lifecycle.Receiver.Reserving.{joined}
use fakedetector.Lifecycle.Receiver.{
  World, Call, on_registry, on_queue, clock_now, held_task, hand_over, hand_in, resolve, undo,
}

-- A method body that leaves a task its identity.
abbrev KeepsId : (AnalysisTask → Result AnalysisTask) → Type 0
KeepsId body = (t u : AnalysisTask) → body t ≡ ok u → u.context.analysis_id ≡ t.context.analysis_id

project-KeepsId :
    (t : AnalysisTask) (c : AnalysisContext) (status : AnalysisStatus) (stage : ProcessingStage)
    (started finished : Option ℕ) {d : AnalysisContext}
    → project_context t c status stage started finished ≡ ok d
    → d.analysis_id ≡ c.analysis_id
unfolding project_context
project-KeepsId t c status stage started finished e = ground arith

transition-KeepsId :
    (t : AnalysisTask) (status : AnalysisStatus) (stage : ProcessingStage)
    (started finished : Option ℕ) {u : AnalysisTask}
    → transition t status stage started finished ≡ ok u
    → u.context.analysis_id ≡ t.context.analysis_id
unfolding transition
transition-KeepsId t status stage started finished e =
    let (d, f, g) = bind-ok (project_context t t.context status stage started finished) _ e in
    ap (λ u. u.context.analysis_id) (ok-injective g)
    ∙ project-KeepsId t t.context status stage started finished f

routing-KeepsId :
    KeepsId (staged_transition AnalysisStatus.queued ProcessingStage.routing none none)
unfolding staged_transition
routing-KeepsId t u e = transition-KeepsId t _ _ none none e

queued-KeepsId : KeepsId (staged_transition AnalysisStatus.queued ProcessingStage.queued none none)
unfolding staged_transition
queued-KeepsId t u e = transition-KeepsId t _ _ none none e

bind_route-KeepsId : (m : MediaType) → KeepsId (bind_route m)
unfolding bind_route
bind_route-KeepsId m t u e = ground arith

mark_enqueued-KeepsId : (at : Datetime) → KeepsId (mark_enqueued at)
unfolding mark_enqueued
mark_enqueued-KeepsId at t u e = ground arith

pub modify-joined :
    (id : String) (body : AnalysisTask → Result AnalysisTask) (t : AnalysisTask) (r : TaskRegistry)
    {s : TaskRegistry}
    → find id r.tasks ≡ none
    → modify id body (joined id t r) ≡ ok s
    → (u : AnalysisTask) × (body t ≡ ok u) × (s ≡ joined id u r)
modify-joined id body t r {s} fresh e =
    let (v, u, there, done, made) = modify_inv id body (joined id t r) e in
    let same : v ≡ t = cc (there, find-snoc id t r.tasks fresh) in
    (
      u,
      subst (λ x. body x ≡ ok u) same done,
      made ∙ ap (λ d. record r { tasks = d }) (replace-snoc id t u r.tasks fresh),
    )

module _ (Q : TaskQueue) (id : String) (r : TaskRegistry) (fresh : find id r.tasks ≡ none)
    (IsLeft : Q.State → Type 0) where
  -- The call has added its task to the registry, and has left the queue as `IsLeft` says.
  abbrev pub Pending : World Q.State → Type 0
  Pending w =
      (t : AnalysisTask) × (t.context.analysis_id ≡ id)
      × (w.registry ≡ joined id t r)
      × IsLeft w.queue

  registry-Pending :
      (body : AnalysisTask → Result AnalysisTask) (w : World Q.State)
      → KeepsId body
      → Pending w
      → Everywhere Pending (on_registry Q (modify id body) w)
  registry-Pending body w keeps (t, named, e, left) =
      change-Everywhere Pending (modify id body w.registry) (λ r v. record v { registry = r }) w
        (t, named, e, left)
        (λ s f.
          let g : modify id body (joined id t r) ≡ ok s =
            subst (λ x. modify id body x ≡ ok s) e f in
          let (u, done, made) = modify-joined id body t r fresh g in
          (u, keeps t u done ∙ named, made, left))

  clock-Pending :
      (call : Call) (w : World Q.State) → Pending w → Everywhere Pending (clock_now Q call w)
  clock-Pending call w h = go (now none call.raw call.monotonic w.clock)
    where
      go :
          (emitted : Result (ℕ × LifecycleClock))
          → Everywhere Pending
              (proceed (from_result emitted w) (λ e v. returned e.0 (record v { clock = e.1 })))
      go (err x) = h
      go (ok e) = h

  -- The task that the queue is given is the one that was added.
  held-Pending :
      (w : World Q.State) (task : AnalysisTask)
      → Pending w
      → get id w.registry ≡ ok task
      → task.context.analysis_id ≡ id
  unfolding get
  held-Pending w task (t, named, e, left) f =
      let g : get id (joined id t r) ≡ ok task = subst (λ x. get id x ≡ ok task) e f in
      let there = find-snoc id t r.tasks fresh in cc (named, g, there)

module _ (Q : TaskQueue) {IsValid : Q.State → Type 0} {holds : String → Q.State → Bool}
    (L : IsLawful Q IsValid holds) (id : String) (r : TaskRegistry) (q : Q.State)
    (fresh : find id r.tasks ≡ none) (valid : IsValid q) where
  -- Before the enqueue, and after it.
  abbrev pub Early : World Q.State → Type 0
  Early = Pending Q id r fresh (λ s. s ≡ q)

  abbrev pub Late : World Q.State → Type 0
  Late = Pending Q id r fresh (λ s. Q.remove id s ≡ q)

  Early-Late : holds id q ≡ false → (w : World Q.State) → Early w → Late w
  Early-Late absent w (t, named, e, left) =
      (t, named, e, subst (λ s. Q.remove id s ≡ q) (sym left) (L.remove-absent id q valid absent))

  enqueue-Late :
      (task : AnalysisTask) (executor : ℕ) (w : World Q.State)
      → holds id q ≡ false
      → task.context.analysis_id ≡ id
      → Early w
      → Everywhere Late (on_queue Q (Q.enqueue task executor) w)
  enqueue-Late task executor w absent same (t, named, e, left) =
      change-Everywhere Late (Q.enqueue task executor w.queue) (λ q v. record v { queue = q }) w
        (Early-Late absent w (t, named, e, left))
        (λ s f.
          let g : Q.enqueue task executor q ≡ ok s =
            subst (λ x. Q.enqueue task executor x ≡ ok s) left f in
          (
            t,
            named,
            e,
            subst (λ j. Q.remove j s ≡ q) same (L.remove-enqueue task executor q g valid),
          ))

  -- The steps from the enqueue on, of the task that is held.
  tail-raises :
      (executor at : ℕ) (w : World Q.State)
      → holds id q ≡ false
      → Early w
      → WhereRaised Late (proceed (held_task Q id w) (λ task. hand_in Q id executor at task))
  tail-raises executor at w absent h = go (get id w.registry) refl
    where
      go :
          (found : Result AnalysisTask)
          → get id w.registry ≡ found
          → WhereRaised Late (proceed (from_result found w) (λ task. hand_in Q id executor at task))
      go (err x) e = Early-Late absent w h
      go (ok task) e =
          let named = held-Pending Q id r fresh (λ s. s ≡ q) w task h e in
          bind-WhereRaised Late Late _ _ (λ w h. h) (enqueue-Late task executor w absent named h)
            (λ a w h.
              bind-WhereRaised Late Late _ _ (λ w h. h)
                (registry-Pending Q id r fresh (λ s. Q.remove id s ≡ q) _ w
                  (mark_enqueued-KeepsId (utc at)) h)
                (λ a w h.
                  change-WhereRaised Late (Q.commit id w.queue) (λ q v. record v { queue = q }) w
                    h))

  pub hand_over-raises :
      (bindings : List (MediaType × ℕ)) (media : MediaType) (call : Call) (w : World Q.State)
      → holds id q ≡ false
      → Early w
      → WhereRaised Late (hand_over Q bindings id media call w)
  unfolding hand_over
  hand_over-raises bindings media call w absent h =
      let weaken : (w : World Q.State) → Early w → Late w = Early-Late absent in
      bind-WhereRaised Early Late _ _ weaken
        (registry-Pending Q id r fresh (λ s. s ≡ q) _ w routing-KeepsId h)
        (λ a w h.
          bind-WhereRaised Early Late _ _ weaken
            (given-Everywhere Early (resolve bindings media) w h)
            (λ executor w h.
              bind-WhereRaised Early Late _ _ weaken
                (registry-Pending Q id r fresh (λ s. s ≡ q) _ w (bind_route-KeepsId media) h)
                (λ a w h.
                  bind-WhereRaised Early Late _ _ weaken
                    (registry-Pending Q id r fresh (λ s. s ≡ q) _ w queued-KeepsId h)
                    (λ a w h.
                      bind-WhereRaised Early Late _ _ weaken
                        (clock-Pending Q id r fresh (λ s. s ≡ q) call w h)
                        (λ at w h. tail-raises executor at w absent h)))))

  pub undone : (w : World Q.State) → Late w → undo Q id w ≡ record w { queue = q; registry = r }
  unfolding rollback
  undone w (t, named, e, left) =
      let back : rollback id w.registry ≡ r =
        ap (rollback id) e ∙ ap (λ d. record r { tasks = d }) (remove-snoc id t r.tasks fresh) in
      rw (left, back) refl
