-- ===== src/Lifecycle/Receiver/Accepted.antt =====
-- What `accept` of fakedetector/lifecycle/receiver.py leaves behind when it returns.
use fakedetector.Prelude.{
  ℕ, ◌≤◌, String, true, false, Option, none, some, List, ◌≡◌, refl, sym, subst, ap, arith, ◌∙◌,
  Result, ok, find, find-snoc, replace-snoc, contains, str_eq,
}
use fakedetector.Prelude.Runs.{
  Run, returned, raised, given-returned, change-returned, after_step, before_step, answer-returned,
}
use fakedetector.Core.Clock.{LifecycleClock, now}
use fakedetector.Domain.{MediaType, AnalysisStatus, ProcessingStage, same_media_refl}
use fakedetector.Lifecycle.Task.{AnalysisTask, Datetime, utc, other, fresh_task}
use fakedetector.Lifecycle.Machine.{transition, project_context, allowed}
use fakedetector.Lifecycle.Staging.{staged_transition, bind_route, mark_enqueued}
use fakedetector.Lifecycle.Registry.{TaskRegistry, get, modify, reserve, contains_task}
use fakedetector.Lifecycle.Queue.{TaskQueue}
use fakedetector.Lifecycle.Receiver.Reserving.{joined, prepare-returned}
use fakedetector.Lifecycle.Receiver.Pending.{modify-joined}
use fakedetector.Lifecycle.Receiver.{
  World, Call, Stage3Accepted, PathFacts, on_registry, held_task, hand_over, resolve, prepare,
  validate_accepted, is_safe_identity, make_task, accept, handled, after_reservation, undo,
}

module _ (snapshot : String) (call : Call) (a : Stage3Accepted) (created : ℕ) where
  -- The task that the receiver makes, and that task once it is routed and at the queue.
  abbrev pub made_task : AnalysisTask
  made_task =
      fresh_task call.identity a.analysis_id created a.validated_file.media_type snapshot a.source
        call.registry_token

  abbrev at_stage : ProcessingStage → Option MediaType → AnalysisTask
  at_stage stage route = record made_task {
    context = record made_task.context { stage = stage };
    route = route;
  }

  abbrev pub queued_task : AnalysisTask
  queued_task = at_stage ProcessingStage.queued (some a.validated_file.media_type)

  routes :
      staged_transition AnalysisStatus.queued ProcessingStage.routing none none made_task
      ≡ ok (at_stage ProcessingStage.routing none)
  unfolding staged_transition transition project_context allowed fresh_task
  routes = refl

  binds :
      bind_route a.validated_file.media_type (at_stage ProcessingStage.routing none)
      ≡ ok (at_stage ProcessingStage.routing (some a.validated_file.media_type))
  unfolding bind_route fresh_task
  binds = rw (same_media_refl a.validated_file.media_type) refl

  queues :
      staged_transition AnalysisStatus.queued ProcessingStage.queued none none
        (at_stage ProcessingStage.routing (some a.validated_file.media_type))
      ≡ ok queued_task
  unfolding staged_transition transition project_context allowed fresh_task
  queues = refl

  marks :
      (t : ℕ)
      → created ≤ t
      → mark_enqueued (utc t) queued_task ≡ ok (record queued_task { queued_at = some t })
  unfolding mark_enqueued fresh_task
  marks t later = ground arith

  marked_inv :
      (t : ℕ) {u : AnalysisTask}
      → mark_enqueued (utc t) queued_task ≡ ok u
      → (created ≤ t) × (u ≡ record queued_task { queued_at = some t })
  unfolding mark_enqueued fresh_task
  marked_inv t e = (ground arith, ground arith)

modified :
    (id : String) (body : AnalysisTask → Result AnalysisTask) (t : AnalysisTask) {u : AnalysisTask}
    (r : TaskRegistry)
    → find id r.tasks ≡ none
    → body t ≡ ok u
    → modify id body (joined id t r) ≡ ok (joined id u r)
unfolding modify get
modified id body t {u} r fresh e =
    rw (find-snoc id t r.tasks fresh, e, replace-snoc id t u r.tasks fresh) refl

module _ (Q : TaskQueue) (bindings : List (MediaType × ℕ)) (snapshot : String) (call : Call)
    (a : Stage3Accepted) (created : ℕ) (r : TaskRegistry)
    (fresh : find a.analysis_id r.tasks ≡ none) where
  -- The shared state while the call holds its task `t`.
  abbrev pub holding : AnalysisTask → Q.State → LifecycleClock → World Q.State
  holding t q c = record { registry = joined a.analysis_id t r; queue = q; clock = c }

  modify_runs :
      (body : AnalysisTask → Result AnalysisTask) (t : AnalysisTask) {u : AnalysisTask}
      (q : Q.State) (c : LifecycleClock)
      → body t ≡ ok u
      → on_registry Q (modify a.analysis_id body) (holding t q c) ≡ returned tt (holding u q c)
  modify_runs body t q c e = rw (modified a.analysis_id body t r fresh e) refl

  held_runs :
      (t : AnalysisTask) (q : Q.State) (c : LifecycleClock)
      → held_task Q a.analysis_id (holding t q c) ≡ returned t (holding t q c)
  unfolding get
  held_runs t q c = rw (find-snoc a.analysis_id t r.tasks fresh) refl

  -- What a hand-over that returns has done, call by call.
  pub hand_over-returned :
      (q : Q.State) (c : LifecycleClock) {done : Unit {0}} {v : World Q.State}
      → hand_over Q bindings a.analysis_id a.validated_file.media_type call
          (holding (made_task snapshot call a created) q c)
        ≡ returned done v
      → (executor t : ℕ) × (s : Q.State) × (resolve bindings a.validated_file.media_type
          ≡ ok executor)
        × (now none call.raw call.monotonic c ≡ ok (t, v.clock))
        × (created ≤ t)
        × (Q.enqueue (queued_task snapshot call a created) executor q ≡ ok s)
        × (Q.commit a.analysis_id s ≡ ok v.queue)
        × (v.registry
            ≡ joined a.analysis_id
                (record (queued_task snapshot call a created) { queued_at = some t })
                r)
  unfolding hand_over
  hand_over-returned q c e =
      let media = a.validated_file.media_type in
      let task = queued_task snapshot call a created in
      let e = after_step _ _ (modify_runs _ _ q c (routes snapshot call a created)) e in
      let (executor, resolved, e) = given-returned (resolve bindings media) _ _ e in
      let e = after_step _ _ (modify_runs _ _ q c (binds snapshot call a created)) e in
      let e = after_step _ _ (modify_runs _ _ q c (queues snapshot call a created)) e in
      let (at, ticked, e) =
        answer-returned (now none call.raw call.monotonic c) (λ x. x.0)
          (λ x v. record v { clock = x.1 }) _ (holding task q c) e in
      let e = after_step _ _ (held_runs task q at.1) e in
      let (s, enqueued, e) =
        answer-returned (Q.enqueue task executor q) (λ x. tt) (λ x v. record v { queue = x }) _
          (holding task q at.1) e in
      let (m, marked, e) =
        answer-returned
          (modify a.analysis_id (mark_enqueued (utc at.0)) (joined a.analysis_id task r)) (λ x. tt)
          (λ x v. record v { registry = x }) _ (holding task s at.1) e in
      let (z, committed, after) =
        change-returned (Q.commit a.analysis_id s) (λ x v. record v { queue = x }) _ e in
      let (u, done, made) =
        modify-joined a.analysis_id (mark_enqueued (utc at.0)) task r fresh marked in
      let (later, marked_task) = marked_inv snapshot call a created at.0 done in
      (
        executor,
        at.0,
        s,
        resolved,
        ticked ∙ ap (λ k. ok (at.0, k)) (sym (ap (λ w. w.clock) after)),
        later,
        enqueued,
        committed ∙ ap (λ k. ok k) (sym (ap (λ w. w.queue) after)),
        ap (λ w. w.registry) after ∙ made ∙ ap (λ t. joined a.analysis_id t r) marked_task,
      )

  -- A hand-over whose calls succeed returns, with the task marked as enqueued.
  pub hand_over-returns :
      (executor t : ℕ) (q s z : Q.State) (c d : LifecycleClock)
      → resolve bindings a.validated_file.media_type ≡ ok executor
      → now none call.raw call.monotonic c ≡ ok (t, d)
      → created ≤ t
      → Q.enqueue (queued_task snapshot call a created) executor q ≡ ok s
      → Q.commit a.analysis_id s ≡ ok z
      → hand_over Q bindings a.analysis_id a.validated_file.media_type call
          (holding (made_task snapshot call a created) q c)
        ≡ returned tt
            (holding (record (queued_task snapshot call a created) { queued_at = some t }) z d)
  unfolding hand_over
  hand_over-returns executor t q s z c d resolved ticked later enqueued committed =
      let task = queued_task snapshot call a created in
      let made = made_task snapshot call a created in
      before_step _ _ (modify_runs _ _ q c (routes snapshot call a created)) (
        rw resolved (
          before_step _ _ (modify_runs _ _ q c (binds snapshot call a created)) (
            before_step _ _ (modify_runs _ _ q c (queues snapshot call a created)) (
              rw ticked (
                before_step _ _ (held_runs task q d) (
                  rw enqueued (
                    before_step _ _ (modify_runs _ _ s d (marks snapshot call a created t later))
                      (rw committed refl))))))))

made_inv :
    (snapshot : String) (call : Call) (a : Stage3Accepted) (at : Datetime) {t : AnalysisTask}
    → make_task snapshot call a at ≡ ok t
    → (created : ℕ) × (at ≡ utc created) × (t ≡ made_task snapshot call a created)
unfolding make_task fresh_task
made_inv snapshot call a (utc created) e = (created, refl, ground arith)
made_inv snapshot call a other e = cc

handled_returned :
    (Q : TaskQueue) (undoing : World Q.State → World Q.State) (run : Run (World Q.State) (Unit {0}))
    {done : Unit {0}} {v : World Q.State}
    → handled Q undoing run ≡ returned done v
    → run ≡ returned done v
handled_returned Q undoing (returned done w) e = e
handled_returned Q undoing (raised x w) e = cc

reserved_returned :
    (Q : TaskQueue) (bindings : List (MediaType × ℕ)) (a : Stage3Accepted) (call : Call)
    (run : Run (World Q.State) (Unit {0})) {done : Unit {0}} {v : World Q.State}
    → after_reservation Q bindings a call run ≡ returned done v
    → (u : World Q.State) × (run ≡ returned tt u)
      × (hand_over Q bindings a.analysis_id a.validated_file.media_type call u ≡ returned done v)
reserved_returned Q bindings a call (returned done w) e =
    (w, refl, handled_returned Q (undo Q a.analysis_id) _ e)
reserved_returned Q bindings a call (raised x w) e = cc

prepare_runs :
    (Q : TaskQueue) (paths : PathFacts) (snapshot : String) (call : Call) (a : Stage3Accepted)
    (w : World Q.State) (created : ℕ)
    → validate_accepted a ≡ ok tt
    → is_safe_identity paths a.analysis_id ≡ true
    → str_eq snapshot "" ≡ false
    → a.registered_at ≡ utc created
    → find a.analysis_id w.registry.tasks ≡ none
    → contains w.registry.cleanup_claims a.analysis_id ≡ false
    → prepare Q paths snapshot call a w
      ≡ returned tt (record w {
        registry = joined a.analysis_id (made_task snapshot call a created) w.registry;
      })
unfolding prepare make_task reserve contains_task fresh_task
prepare_runs Q paths snapshot call a w created valid safe named at free unclaimed =
    rw (valid, safe, at, named, free, unclaimed) refl

module _ (Q : TaskQueue) (paths : PathFacts) (bindings : List (MediaType × ℕ)) (snapshot : String)
    (call : Call) (a : Stage3Accepted) (w : World Q.State) where
  -- An `accept` that returns found the identity free, an executor for the media type and a time of
  -- the clock that is not before the registration. The queue took the routed task, which had no
  -- enqueue time yet, and confirmed it; the registry is as before with that task added, marked as
  -- enqueued at that time; the clock has moved on.
  pub accept_accepts :
      {done : Unit {0}} {v : World Q.State}
      → accept Q paths bindings snapshot call a w ≡ returned done v
      → (created executor t : ℕ) × (s : Q.State) × (a.registered_at ≡ utc created)
        × (find a.analysis_id w.registry.tasks ≡ none)
        × (resolve bindings a.validated_file.media_type ≡ ok executor)
        × (now none call.raw call.monotonic w.clock ≡ ok (t, v.clock))
        × (created ≤ t)
        × (Q.enqueue (queued_task snapshot call a created) executor w.queue ≡ ok s)
        × (Q.commit a.analysis_id s ≡ ok v.queue)
        × (v.registry
            ≡ joined a.analysis_id
                (record (queued_task snapshot call a created) { queued_at = some t })
                w.registry)
  unfolding accept
  accept_accepts {done} {v} e =
      let (u, p, f) = reserved_returned Q bindings a call (prepare Q paths snapshot call a w) e in
      let (t, made, named, free, grown) = prepare-returned Q paths snapshot call a w p in
      let (created, at, fresh) = made_inv snapshot call a a.registered_at made in
      let start : u
          ≡ holding Q bindings snapshot call a created w.registry free
              (made_task snapshot call a created) w.queue w.clock =
        grown ∙ ap (λ t. record w { registry = joined a.analysis_id t w.registry }) fresh in
      let (executor, t, s, resolved, ticked, later, enqueued, committed, joined_now) =
        hand_over-returned Q bindings snapshot call a created w.registry free w.queue w.clock (
          subst
            (λ u.
              hand_over Q bindings a.analysis_id a.validated_file.media_type call u
              ≡ returned done v)
            start f) in
      (created, executor, t, s, at, free, resolved, ticked, later, enqueued, committed, joined_now)

  -- `accept` returns, and leaves the queued task in the registry, when the input is consistent, its
  -- identity safe and free, its time of registration an aware UTC time, the id of the configuration
  -- snapshot not empty, its media type has an executor, the clock answers a time that is not before
  -- the registration, and the queue takes and confirms the task.
  pub accept_returns :
      (created executor t : ℕ) (s z : Q.State) (d : LifecycleClock)
      → validate_accepted a ≡ ok tt
      → is_safe_identity paths a.analysis_id ≡ true
      → str_eq snapshot "" ≡ false
      → a.registered_at ≡ utc created
      → find a.analysis_id w.registry.tasks ≡ none
      → contains w.registry.cleanup_claims a.analysis_id ≡ false
      → resolve bindings a.validated_file.media_type ≡ ok executor
      → now none call.raw call.monotonic w.clock ≡ ok (t, d)
      → created ≤ t
      → Q.enqueue (queued_task snapshot call a created) executor w.queue ≡ ok s
      → Q.commit a.analysis_id s ≡ ok z
      → accept Q paths bindings snapshot call a w
        ≡ returned tt (record {
          registry =
              joined a.analysis_id
                (record (queued_task snapshot call a created) { queued_at = some t })
                w.registry;
          queue = z;
          clock = d;
        })
  unfolding accept
  accept_returns created executor t s z d valid safe named at free unclaimed resolved ticked later e
        f =
      let ready : prepare Q paths snapshot call a w
          ≡ returned tt (
              holding Q bindings snapshot call a created w.registry free
                (made_task snapshot call a created) w.queue w.clock) =
        prepare_runs Q paths snapshot call a w created valid safe named at free unclaimed in
      let over =
        hand_over-returns Q bindings snapshot call a created w.registry free executor t w.queue s z
          w.clock d resolved ticked later e f in
      rw (ready, over) refl
