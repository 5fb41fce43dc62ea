-- ===== src/Lifecycle/Cleanup/Acceptance.antt =====
-- That the registry accepts what `WorkspaceCleanup` of fakedetector/lifecycle/cleanup.py records.
use fakedetector.Prelude.{
  ℕ, zero, suc, ◌+◌, ◌-◌, Bool, true, false, ◌&&◌, ◌||◌, not, none, ◌≡◌, refl, ap, subst, ◌∙◌,
  arith, ok, ok-bind, if◌then◌else◌, Bool-cases, inl, inr,
}
use fakedetector.Domain.{ErrorDetail}
use fakedetector.Lifecycle.Task.{
  AnalysisTask, CleanupFacts, TerminalSettlement, TerminalSettlementPhase,
}
use fakedetector.Lifecycle.Settlement.{owned_settlement, mark_terminal_facts_ready, kept, is_phase}
use fakedetector.Lifecycle.Cleanup.{
  SourceCleanup, cleaned, raised, incomplete, Operations, CleanupConfig, Outstanding, all_deleted,
  facts, after_source, with_artifacts, with_source, note_artifacts, attempt, attempts,
  quarantine_step, cleanup_task,
}
use fakedetector.Lifecycle.Cleanup.Held.{IsHeld, kept_refl, noted-IsHeld, decided-accepted}

after-kept :
    (src : SourceCleanup) (before original intermediate : Bool)
    → kept before original ≡ true
    → kept before
        (if not original || not intermediate
          then after_source src original
          else (original, false)).0
      ≡ true
after-kept cleaned before original intermediate h = ground arith
after-kept raised before original intermediate h = ground arith
after-kept (incomplete o i) before original intermediate h = ground arith

left-source :
    (src : SourceCleanup) (original intermediate artifacts : Bool)
    → ((o i : Bool) → src ≡ incomplete o i → i ≡ false)
    → intermediate ≡ false
    → ((if not original || not intermediate then after_source src original else (original, false)).0
        && (artifacts
            && (if not original || not intermediate
                then after_source src original
                else (original, false)).1))
      ≡ false
    → (artifacts
        && (if not original || not intermediate
            then after_source src original
            else (original, false)).1)
      ≡ false
left-source cleaned original intermediate artifacts d n e = ground arith
left-source raised original intermediate artifacts d n e = ground arith
left-source (incomplete o i) original intermediate artifacts d n e =
    let none_deleted = d o i refl in ground arith

kept_or : (a b : Bool) → kept a (a || b) ≡ true
kept_or a b = ground arith

none_deleted : (a b : Bool) → b ≡ false → (a && b) ≡ false
none_deleted a b e = ground arith

module _ (token : ℕ) where
  module _ (ops : Operations)
      (documented : (k : ℕ) (o i : Bool) → ops.source k ≡ incomplete o i → i ≡ false) where
    noted-with_artifacts :
        (k : ℕ) (s : TerminalSettlement) (l : Outstanding) (t : AnalysisTask)
        → IsHeld token s l t
        → IsHeld token s (with_artifacts ops k l) t
    unfolding with_artifacts
    noted-with_artifacts k s l t h = record {
      owned = h.owned;
      in_progress = h.in_progress;
      open_facts = h.open_facts;
      undecided = h.undecided;
      unused = h.unused;
      original = h.original;
      artifacts = ground arith;
      intermediate = h.intermediate;
    }

    artifacts_apart :
        (k : ℕ) (l : Outstanding)
        → Outstanding.intermediate_deleted (with_artifacts ops k l) ≡ l.intermediate_deleted
    unfolding with_artifacts
    artifacts_apart k l = refl

    noted-with_source :
        (k : ℕ) (s : TerminalSettlement) (l : Outstanding) (t : AnalysisTask)
        → l.intermediate_deleted ≡ false
        → IsHeld token s l t
        → IsHeld token s (with_source ops k l) t
    unfolding with_source
    noted-with_source k s l t i h = record {
      owned = h.owned;
      in_progress = h.in_progress;
      open_facts = h.open_facts;
      undecided = h.undecided;
      unused = h.unused;
      original =
          after-kept (ops.source k) s.original_file_deleted l.original_deleted
            l.intermediate_deleted h.original;
      artifacts = h.artifacts;
      intermediate = ground arith;
    }

    -- an attempt that leaves something leaves the intermediate files
    attempted-left :
        (k : ℕ) (l : Outstanding)
        → l.intermediate_deleted ≡ false
        → all_deleted (with_source ops k (with_artifacts ops k l)) ≡ false
        → Outstanding.intermediate_deleted (with_source ops k (with_artifacts ops k l)) ≡ false
    unfolding with_source with_artifacts
    attempted-left k l i e =
        left-source (ops.source k) l.original_deleted l.intermediate_deleted _ (documented k) i e

    note_artifacts-IsHeld :
        (k : ℕ) (s : TerminalSettlement) (l : Outstanding) (t : AnalysisTask)
        → IsHeld token s l t
        → (s' : TerminalSettlement) × (t' : AnalysisTask) × (note_artifacts token ops k l t ≡ ok t')
          × IsHeld token s' (with_artifacts ops k l) t'
    unfolding note_artifacts
    note_artifacts-IsHeld k s l t h =
        let m = noted-with_artifacts k s l t h in
        elim (Bool-cases l.artifact_cleanup_completed) [
          | inl a ↦ (s, t, simp a refl, m)
          | inr a ↦
              let (done, held) = noted-IsHeld token s (with_artifacts ops k l) t false m in
              (_, _, simp (a, done) refl, held)
        ]

    attempt-IsHeld :
        (k : ℕ) (s : TerminalSettlement) (l : Outstanding) (t : AnalysisTask)
        → l.intermediate_deleted ≡ false
        → IsHeld token s l t
        → (s' : TerminalSettlement) × (t' : AnalysisTask) × (attempt token ops k l t
            ≡ ok (with_source ops k (with_artifacts ops k l), t'))
          × IsHeld token s' (with_source ops k (with_artifacts ops k l)) t'
    unfolding attempt
    attempt-IsHeld k s l t i h =
        let (s1, t1, first, held) = note_artifacts-IsHeld k s l t h in
        let same : Outstanding.intermediate_deleted (with_artifacts ops k l) ≡ false =
          artifacts_apart k l ∙ i in
        let next = noted-with_source k s1 (with_artifacts ops k l) t1 same held in
        let (second, last) = noted-IsHeld token s1 _ t1 true next in
        (_, _, rw first (rw second refl), last)

    -- What the loop leaves: facts that the registry accepts, or a settlement that is still held.
    data IsTried (identity : ℕ) (e : ErrorDetail) : Bool → Outstanding → AnalysisTask → Type 0 where
      settled :
          {l : Outstanding} {t : AnalysisTask} (u : AnalysisTask)
          → mark_terminal_facts_ready identity token (facts e true true false) t ≡ ok u
          → IsTried identity e true l t
      held :
          {l : Outstanding} {t : AnalysisTask} (s : TerminalSettlement)
          → IsHeld token s l t
          → IsTried identity e false l t

    both-true : (a b : Bool) → (a && b) ≡ true → (a ≡ true) × (b ≡ true)
    both-true true true h = (refl, refl)
    both-true true false h = cc
    both-true false b h = cc

    attempts-IsTried :
        (identity : ℕ) (e : ErrorDetail) (n : ℕ) (s : TerminalSettlement) (l : Outstanding)
        (t : AnalysisTask)
        → l.intermediate_deleted ≡ false
        → IsHeld token s l t
        → (done : Bool) × (l' : Outstanding) × (t' : AnalysisTask) × (attempts token ops n l t
            ≡ ok (done, l', t'))
          × IsTried identity e done l' t'
    unfolding attempts
    attempts-IsTried identity e zero s l t i h = (_, _, _, refl, held s h)
    attempts-IsTried identity e (suc k) s l t i h =
        let (s1, t1, tried, held1) = attempt-IsHeld k s l t i h in
        let l1 = with_source ops k (with_artifacts ops k l) in
        elim (Bool-cases (all_deleted l1)) [
          | inl all ↦
              let (t2, decision, (u, mark)) =
                decided-accepted token s1 l1 t1 false identity e held1 in
              let (o, n) = both-true l1.original_deleted l1.intermediate_deleted all in
              (
                true,
                l1,
                t2,
                ok-bind (attempt token ops k l t) _ tried (rw all (rw decision refl)),
                settled u (
                    subst (λ f. mark_terminal_facts_ready identity token f t2 ≡ ok u)
                      (λ j. facts e (o j) (n j) false) mark),
              )
          | inr some_left ↦
              let (done, l2, t2, rest, outcome) =
                attempts-IsTried identity e k s1 l1 t1 (attempted-left k l i some_left) held1 in
              (done, l2, t2, ok-bind (attempt token ops k l t) _ tried (rw some_left rest), outcome)
        ]

    finish :
        (config : CleanupConfig) (identity : ℕ) (e : ErrorDetail) (s0 s : TerminalSettlement)
        (l : Outstanding) (t : AnalysisTask)
        → s0.quarantine_decided ≡ false
        → IsHeld token s l t
        → (used : Bool) × (t' : AnalysisTask) × (quarantine_step token ops config s0 l t
            ≡ ok (used, t'))
          × ((u : AnalysisTask) × (mark_terminal_facts_ready identity token
                  (facts e l.original_deleted l.intermediate_deleted used)
                  t'
                ≡ ok u))
    unfolding quarantine_step
    finish config identity e s0 s l t d h =
        let used = if config.quarantine_enabled then ops.quarantine else s0.quarantine_used in
        let (t', decision, accepted) = decided-accepted token s l t used identity e h in
        (used, t', rw d (rw decision refl), accepted)

    -- Cleanup of a task whose settlement the token owns, in progress, undecided, without a used
    -- quarantine and with intermediate files left: whatever its physical operations do, if an
    -- incomplete cleanup of the source never reports the intermediate files as deleted, the registry
    -- accepts every progress record and then the facts.
    pub cleanup_accepted :
        (config : CleanupConfig) (identity : ℕ) (e : ErrorDetail) (released : Bool)
        (s : TerminalSettlement) (t : AnalysisTask)
        → owned_settlement token t ≡ ok s
        → s.phase ≡ TerminalSettlementPhase.cleanup_in_progress
        → s.facts ≡ none
        → s.quarantine_decided ≡ false
        → s.quarantine_used ≡ false
        → s.intermediate_files_deleted ≡ false
        → (f : CleanupFacts) × (t' : AnalysisTask) × (u : AnalysisTask) × (cleanup_task token ops
              config e released s t
            ≡ ok (f, t'))
          × (mark_terminal_facts_ready identity token f t' ≡ ok u)
    unfolding cleanup_task
    cleanup_accepted config identity e released s t o p n d q i =
        let start : Outstanding = record {
          original_deleted = s.original_file_deleted || released;
          artifact_cleanup_completed = s.artifact_cleanup_completed;
          intermediate_deleted = s.intermediate_files_deleted;
        } in
        let count = (1 + config.cleanup_retries) - s.attempts_completed in
        let h : IsHeld token s start t = record {
          owned = o;
          in_progress = ap (λ x. is_phase x TerminalSettlementPhase.cleanup_in_progress) p;
          open_facts = n;
          undecided = d;
          unused = q;
          original = kept_or s.original_file_deleted released;
          artifacts = kept_refl s.artifact_cleanup_completed;
          intermediate = kept_refl s.intermediate_files_deleted;
        } in
        let (done, l, t1, run, outcome) = attempts-IsTried identity e count s start t i h in
        go done l t1 run outcome
      where
        go :
            (done : Bool) (l : Outstanding) (t1 : AnalysisTask)
            → attempts token ops
                ((1 + config.cleanup_retries) - s.attempts_completed)
                (record {
                  original_deleted = s.original_file_deleted || released;
                  artifact_cleanup_completed = s.artifact_cleanup_completed;
                  intermediate_deleted = s.intermediate_files_deleted;
                })
                t
              ≡ ok (done, l, t1)
            → IsTried identity e done l t1
            → (f : CleanupFacts) × (t' : AnalysisTask) × (u : AnalysisTask) × (cleanup_task token
                  ops config e released s t
                ≡ ok (f, t'))
              × (mark_terminal_facts_ready identity token f t' ≡ ok u)
        go true l t1 run (settled u m) = (
          _,
          t1,
          u,
          rw (none_deleted (s.original_file_deleted || released) _ i, cleanup_task)
              (ok-bind (attempts token ops _ _ t) _ run refl),
          m,
        )
        go false l t1 run (held s1 h1) =
            let (used, t2, last, (u, m)) = finish config identity e s s1 l t1 d h1 in
            (
              _,
              t2,
              u,
              rw (none_deleted (s.original_file_deleted || released) _ i, cleanup_task)
                  (ok-bind (attempts token ops _ _ t) _ run
                    (ok-bind (quarantine_step token ops config s l t1) _ last refl)),
              m,
            )
