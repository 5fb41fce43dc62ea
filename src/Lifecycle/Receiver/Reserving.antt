-- ===== src/Lifecycle/Receiver/Reserving.antt =====
-- `accept` of fakedetector/lifecycle/receiver.py up to the reservation of its task.
use fakedetector.Prelude.{
  String, none, [], ◌∷◌, ◌++◌, ◌≡◌, refl, subst, ap, arith, ◌∙◌, ok, find, value_error, guard,
}
use fakedetector.Prelude.Runs.{
  returned, WhereRaised, bind-WhereRaised, given-Everywhere, change-WhereRaised, given-returned,
  change-returned,
}
use fakedetector.Lifecycle.Task.{AnalysisTask, Datetime, utc, other, fresh_task}
use fakedetector.Lifecycle.Registry.{TaskRegistry, reserve, contains_task}
use fakedetector.Lifecycle.Queue.{TaskQueue}
use fakedetector.Lifecycle.Receiver.{
  World, Call, Stage3Accepted, PathFacts, prepare, validate_accepted, is_safe_identity, make_task,
}

abbrev pub joined : String → AnalysisTask → TaskRegistry → TaskRegistry
joined id t r = record r { tasks = r.tasks ++ (id, t) ∷ [] }

reserve-joined :
    (task : AnalysisTask) (r : TaskRegistry) {s : TaskRegistry}
    → reserve task r ≡ ok s
    → (find task.context.analysis_id r.tasks ≡ none) × (s ≡ joined task.context.analysis_id task r)
unfolding reserve contains_task
reserve-joined task r e = (ground arith, ground arith)

pub prepare-raised :
    (Q : TaskQueue) (paths : PathFacts) (snapshot : String) (call : Call) (a : Stage3Accepted)
    (w : World Q.State)
    → WhereRaised (λ v. v ≡ w) (prepare Q paths snapshot call a w)
unfolding prepare
prepare-raised Q paths snapshot call a w =
    let same : World Q.State → Type 0 = λ v. v ≡ w in
    bind-WhereRaised same same _ _ (λ v h. h) (given-Everywhere same (validate_accepted a) w refl)
      (λ u v h.
        bind-WhereRaised same same _ _ (λ v h. h)
          (given-Everywhere same (guard (is_safe_identity paths a.analysis_id) value_error) v h)
          (λ u v h.
            bind-WhereRaised same same _ _ (λ v h. h)
              (given-Everywhere same (make_task snapshot call a a.registered_at) v h)
              (λ task v h.
                change-WhereRaised same (reserve task v.registry) (λ r v. record v { registry = r })
                  v h)))

made-Id :
    (snapshot : String) (call : Call) (a : Stage3Accepted) (at : Datetime) {t : AnalysisTask}
    → make_task snapshot call a at ≡ ok t
    → t.context.analysis_id ≡ a.analysis_id
unfolding make_task fresh_task
made-Id snapshot call a (utc created) e = ground arith
made-Id snapshot call a other e = cc

-- The reserved task, and that its identity was free.
pub prepare-returned :
    (Q : TaskQueue) (paths : PathFacts) (snapshot : String) (call : Call) (a : Stage3Accepted)
    (w : World Q.State) {u : Unit {0}} {v : World Q.State}
    → prepare Q paths snapshot call a w ≡ returned u v
    → (t : AnalysisTask) × (make_task snapshot call a a.registered_at ≡ ok t)
      × (t.context.analysis_id ≡ a.analysis_id)
      × (find a.analysis_id w.registry.tasks ≡ none)
      × (v ≡ record w { registry = joined a.analysis_id t w.registry })
unfolding prepare
prepare-returned Q paths snapshot call a w e =
    let (_, _, e) = given-returned (validate_accepted a) _ w e in
    let (_, _, e) =
      given-returned (guard (is_safe_identity paths a.analysis_id) value_error) _ w e in
    let (t, made, e) = given-returned (make_task snapshot call a a.registered_at) _ w e in
    let (s, reserved, after) =
      change-returned (reserve t w.registry) (λ r v. record v { registry = r }) w e in
    let (free, grown) = reserve-joined t w.registry reserved in
    let named = made-Id snapshot call a a.registered_at made in
    (
      t,
      made,
      named,
      subst (λ id. find id w.registry.tasks ≡ none) named free,
      after ∙ ap (λ r. record w { registry = r }) (grown ∙ ap (λ id. joined id t w.registry) named),
    )
