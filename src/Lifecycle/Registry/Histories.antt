-- ===== src/Lifecycle/Registry/Histories.antt =====
-- Whole histories of the registry, from an empty one.
use fakedetector.Prelude.{
  ℕ, String, some, ◌≡◌, ok, refl, sym, ap, subst, ◌∙◌, find, replace, find-replace, find-remove,
  Entries-find, arith, str_eq, eq_iff, List, [], ◌∷◌, ◌++◌, Bool-cases, inl, inr,
}
use fakedetector.Domain.{MediaType}
use fakedetector.Lifecycle.Task.{AnalysisTask, TaskSnapshot, fresh_task}
use fakedetector.Lifecycle.Settlement.{PreparedTerminalSettlement}
use fakedetector.Lifecycle.Consistency.{fresh_task-IsConsistent}
use fakedetector.Lifecycle.Registry.{
  TaskRegistry, put, reserve, rollback, claim_inactive, release_inactive, finalize, empty_registry,
}
use fakedetector.Lifecycle.Registry.Soundness.{
  IsSound, IsFiled, put-IsSound, rollback-IsSound, reserve-IsSound, claim_inactive-IsSound,
  release_inactive-IsSound, finalize_inv, reserve_inv, claim_inactive_inv,
}
use fakedetector.Lifecycle.Registry.Steps.{TaskStep, TaskStep-IsConsistent}
use fakedetector.Lifecycle.Registry.Advance.{Advances, TaskStep-Advances}

-- One critical section of the registry.
pub data Step (r s : TaskRegistry) : Type 0 where
  reserves :
      (identity : ℕ) (id : String) (created : ℕ) (media : MediaType) (snapshot : String)
      (source token : ℕ)
      → reserve (fresh_task identity id created media snapshot source token) r ≡ ok s
      → Step r s
  rolls_back : (id : String) → s ≡ rollback id r → Step r s
  changes :
      (id : String) (t u : AnalysisTask) (objects : ℕ)
      → find id r.tasks ≡ some t
      → TaskStep t u
      → s ≡ record (put id u r) { next_object = objects }
      → Step r s
  evicts :
      (id : String) (token : ℕ) (p : PreparedTerminalSettlement) (shot : TaskSnapshot)
      → finalize id token p r ≡ ok (shot, s)
      → Step r s
  claims_inactive : (id : String) → claim_inactive id r ≡ some s → Step r s
  releases_inactive : (id : String) → s ≡ release_inactive id r → Step r s

pub data Reach (r : TaskRegistry) : TaskRegistry → Type 0 where
  here : Reach r r
  next : {s v : TaskRegistry} → Reach r s → Step s v → Reach r v

counted-IsSound : (n : ℕ) (r : TaskRegistry) → IsSound r → IsSound (record r { next_object = n })
counted-IsSound n r h = record { filed = h.filed; apart = h.apart }

changed-IsSound :
    {r : TaskRegistry} (id : String) (t u : AnalysisTask) (objects : ℕ)
    → find id r.tasks ≡ some t
    → TaskStep t u
    → IsSound r
    → IsSound (record (put id u r) { next_object = objects })
changed-IsSound {r} id t u objects e st h =
    let (named, c) = Entries-find IsFiled id r.tasks h.filed e in
    let a = TaskStep-Advances c.settlement st in
    counted-IsSound objects (put id u r)
      (put-IsSound id t u r e (a.same_id ∙ named, TaskStep-IsConsistent st c) h)

pub Step-IsSound : {r s : TaskRegistry} → Step r s → IsSound r → IsSound s
Step-IsSound {r} (reserves identity id created media snapshot source token e) h =
    reserve-IsSound _ r (fresh_task-IsConsistent identity id created media snapshot source token) e
      h
Step-IsSound {r} (rolls_back id e) h = subst IsSound (sym e) (rollback-IsSound id r h)
Step-IsSound (changes id t u objects e st f) h =
    subst IsSound (sym f) (changed-IsSound id t u objects e st h)
Step-IsSound {r} (evicts id token p shot e) h =
    subst IsSound (sym (finalize_inv id token p r e)) (rollback-IsSound id r h)
Step-IsSound {r} (claims_inactive id e) h = claim_inactive-IsSound id r e h
Step-IsSound {r} (releases_inactive id e) h =
    subst IsSound (sym e) (release_inactive-IsSound id r h)

Reach-keeps : {r s : TaskRegistry} → Reach r s → IsSound r → IsSound s
Reach-keeps here h = h
Reach-keeps (next way st) h = Step-IsSound st (Reach-keeps way h)

pub empty-IsSound : IsSound empty_registry
unfolding empty_registry find
empty-IsSound = record { filed = tt; apart = λ id h. refl }

-- After any history of the registry's methods, by any threads, in which a bare `transition` leads to
-- ROUTING or QUEUED alone and an outcome that its constructor accepted is recorded only for a task
-- whose execution is claimed, as the receiver and the processor call them, every task that the
-- registry holds is filed under its own identity and consistent (status and stage belong together, times are in order,
-- the published data and the settlement fit the stage), and no identity with a live task is
-- claimed by an inactive cleanup.
pub Reach-IsSound : {r : TaskRegistry} → Reach empty_registry r → IsSound r
Reach-IsSound way = Reach-keeps way empty-IsSound

Advances-refl : (t : AnalysisTask) → Advances t t
Advances-refl t = ground arith

find-reserve :
    (id j : String) (t u : AnalysisTask) (d : List (String × AnalysisTask))
    → find j d ≡ some t
    → find j (d ++ (id, u) ∷ []) ≡ some t
unfolding find
find-reserve id j t u [] h = cc
find-reserve id j t u ((i, w) ∷ d) h = ground (arith, find-reserve id j t u d)

same-Advances : {t u : AnalysisTask} → u ≡ t → Advances t u
same-Advances {t} e = subst (Advances t) (sym e) (Advances-refl t)

rolled-Advances :
    (r : TaskRegistry) (j id : String) (t u : AnalysisTask)
    → find id r.tasks ≡ some t
    → find id (rollback j r).tasks ≡ some u
    → Advances t u
unfolding rollback
rolled-Advances r j id t u e f = same-Advances (ground (arith, find-remove j id r.tasks))

changed-Advances :
    (r : TaskRegistry) (j id : String) (old new t u : AnalysisTask)
    → IsSound r
    → find j r.tasks ≡ some old
    → TaskStep old new
    → find id r.tasks ≡ some t
    → find id (replace j new r.tasks) ≡ some u
    → Advances t u
changed-Advances r j id old new t u h e st g f = elim (Bool-cases (str_eq j id)) [
  | inl same ↦
      let one : old ≡ t = cc (e, g, (eq_iff j id).0 same) in
      let two : u ≡ new = ground (arith, find-replace j id new r.tasks) in
      subst (λ x. Advances x u) one
        (subst (Advances old) (sym two)
          (TaskStep-Advances (Entries-find IsFiled j r.tasks h.filed e).1.settlement st))
  | inr differ ↦ same-Advances (ground (arith, find-replace j id new r.tasks))
]

-- One critical section of a sound registry, with `transition` and `record_outcome` called as the
-- receiver and the processor call them, never takes back what a task has recorded: if the identity names a task
-- before and after it, this is the same object, its stage does not fall, and its queue time, start
-- time, execution claim, frozen cleanup facts, source deletion and attempt count stay or grow.
pub Step-Advances :
    {r s : TaskRegistry} (id : String) (t u : AnalysisTask)
    → IsSound r
    → Step r s
    → find id r.tasks ≡ some t
    → find id s.tasks ≡ some u
    → Advances t u
unfolding release_inactive
Step-Advances {r} id t u h (reserves identity j created media snapshot source token x) e f =
    let task = fresh_task identity j created media snapshot source token in
    same-Advances (
      cc (
        f,
        ap (λ (v : TaskRegistry). find id v.tasks) (reserve_inv task r x).1,
        find-reserve task.context.analysis_id id t task r.tasks e,
      ))
Step-Advances {r} id t u h (rolls_back j x) e f =
    rolled-Advances r j id t u e (subst (λ (v : TaskRegistry). find id v.tasks ≡ some u) x f)
Step-Advances {r} id t u h (changes j old new objects g st x) e f =
    changed-Advances r j id old new t u h g st e
      (subst (λ (v : TaskRegistry). find id v.tasks ≡ some u) x f)
Step-Advances {r} id t u h (evicts j token p shot x) e f =
    rolled-Advances r j id t u e
      (subst (λ (v : TaskRegistry). find id v.tasks ≡ some u) (finalize_inv j token p r x) f)
Step-Advances {r} id t u h (claims_inactive j x) e f =
    same-Advances
      (cc (e, f, ap (λ (v : TaskRegistry). find id v.tasks) (claim_inactive_inv j r x).1))
Step-Advances {r} id t u h (releases_inactive j x) e f =
    same-Advances (cc (e, f, ap (λ (v : TaskRegistry). find id v.tasks) x))
