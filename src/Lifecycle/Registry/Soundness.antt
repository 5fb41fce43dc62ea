-- ===== src/Lifecycle/Registry/Soundness.antt =====
-- Each method of the registry keeps its tasks consistent, filed under their own identity, and
-- apart from the inactive cleanups.
use fakedetector.Prelude.{
  ℕ, String, true, false, none, some, [], ◌∷◌, ◌++◌, ◌≡◌, refl, sym, Result, ok, arith, Entries,
  Entries-replace, Entries-remove, find, find-replace, find-remove, contains, All-++, eq_iff,
  str_eq, find-snoc_other, contains-discard, Bool-cases, subst, inl, inr,
}
use fakedetector.Lifecycle.Task.{AnalysisTask, TaskSnapshot}
use fakedetector.Lifecycle.Settlement.{PreparedTerminalSettlement}
use fakedetector.Lifecycle.Consistency.{IsConsistent}
use fakedetector.Lifecycle.Registry.{
  TaskRegistry, modify, put, reserve, rollback, claim_inactive, release_inactive, finalize,
}

abbrev pub IsFiled : String → AnalysisTask → Type 0
IsFiled id t = (t.context.analysis_id ≡ id) × IsConsistent t

-- An inactive cleanup runs for no identity that has a live task.
pub record IsSound (r : TaskRegistry) : Type 0 where
  pub filed : Entries IsFiled r.tasks
  pub apart : (id : String) → contains r.cleanup_claims id ≡ true → find id r.tasks ≡ none

-- What `modify` did when it succeeded.
pub modify_inv :
    (id : String) (body : AnalysisTask → Result AnalysisTask) (r : TaskRegistry) {s : TaskRegistry}
    → modify id body r ≡ ok s
    → (t : AnalysisTask) × (u : AnalysisTask) × (find id r.tasks ≡ some t)
      × (body t ≡ ok u)
      × (s ≡ put id u r)
unfolding modify
modify_inv id body r e = ground arith

pub put-IsSound :
    (id : String) (t u : AnalysisTask) (r : TaskRegistry)
    → find id r.tasks ≡ some t
    → IsFiled id u
    → IsSound r
    → IsSound (put id u r)
put-IsSound id t u r e f h = record {
  filed = Entries-replace IsFiled id u r.tasks f h.filed;
  apart = λ j c. ground (arith, h.apart j c, find-replace id j u r.tasks, eq_iff id j);
}

pub rollback-IsSound : (id : String) (r : TaskRegistry) → IsSound r → IsSound (rollback id r)
unfolding rollback
rollback-IsSound id r h = record {
  filed = Entries-remove IsFiled id r.tasks h.filed;
  apart = λ j c. ground (arith, h.apart j c, find-remove id j r.tasks);
}

pub reserve_inv :
    (task : AnalysisTask) (r : TaskRegistry) {s : TaskRegistry}
    → reserve task r ≡ ok s
    → (contains r.cleanup_claims task.context.analysis_id ≡ false)
      × (s ≡ record r { tasks = r.tasks ++ (task.context.analysis_id, task) ∷ [] })
unfolding reserve
reserve_inv task r e = (ground arith, ground arith)

pub reserve-IsSound :
    (task : AnalysisTask) (r : TaskRegistry) {s : TaskRegistry}
    → IsConsistent task
    → reserve task r ≡ ok s
    → IsSound r
    → IsSound s
reserve-IsSound task r c e h =
    let id : String = task.context.analysis_id in
    let (free, after) = reserve_inv task r e in
    subst IsSound (sym after) (record {
      filed = All-++ _ r.tasks ((id, task) ∷ []) h.filed ((refl, c), tt);
      apart = λ j k. elim (Bool-cases (str_eq id j)) [
        | inl same ↦ cc (free, k, (eq_iff id j).0 same)
        | inr differ ↦ find-snoc_other j id task r.tasks (h.apart j k) differ
      ];
    })

pub claim_inactive_inv :
    (id : String) (r : TaskRegistry) {s : TaskRegistry}
    → claim_inactive id r ≡ some s
    → (find id r.tasks ≡ none) × (s ≡ record r { cleanup_claims = id ∷ r.cleanup_claims })
unfolding claim_inactive
claim_inactive_inv id r e = (ground arith, ground arith)

pub claim_inactive-IsSound :
    (id : String) (r : TaskRegistry) {s : TaskRegistry}
    → claim_inactive id r ≡ some s
    → IsSound r
    → IsSound s
claim_inactive-IsSound id r e h =
    let (idle, after) = claim_inactive_inv id r e in
    subst IsSound (sym after)
      (record { filed = h.filed; apart = λ j k. ground (arith, h.apart j, eq_iff id j) })

pub release_inactive-IsSound :
    (id : String) (r : TaskRegistry) → IsSound r → IsSound (release_inactive id r)
unfolding release_inactive
release_inactive-IsSound id r h = record {
  filed = h.filed;
  apart = λ j c. h.apart j (ground (arith, contains-discard j id r.cleanup_claims));
}

pub finalize_inv :
    (id : String) (token : ℕ) (p : PreparedTerminalSettlement) (r : TaskRegistry)
    {shot : TaskSnapshot} {s : TaskRegistry}
    → finalize id token p r ≡ ok (shot, s)
    → s ≡ rollback id r
unfolding finalize rollback
finalize_inv id token p r e = ground arith
