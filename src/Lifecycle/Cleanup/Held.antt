-- ===== src/Lifecycle/Cleanup/Held.antt =====
-- The records that `WorkspaceCleanup` of fakedetector/lifecycle/cleanup.py makes of a settlement that
-- it holds, and what the registry answers.
use fakedetector.Prelude.{ℕ, Bool, true, false, none, some, ◌≡◌, refl, arith, ok}
use fakedetector.Domain.{ErrorDetail}
use fakedetector.Lifecycle.Task.{
  AnalysisTask, CleanupFacts, TerminalSettlement, TerminalSettlementPhase,
}
use fakedetector.Lifecycle.Settlement.{
  Progress, owned_settlement, with_settlement, only_adds, advance, record_cleanup_progress,
  mark_terminal_facts_ready, kept, is_phase,
}
use fakedetector.Lifecycle.Cleanup.{Outstanding, noted, decided, facts}

pub kept_refl : (b : Bool) → kept b b ≡ true
kept_refl true = refl
kept_refl false = refl

module _ (token : ℕ) where
  -- A settlement that the token owns while its cleanup is in progress and not decided, and locals
  -- that take nothing back of what it holds.
  pub record IsHeld (s : TerminalSettlement) (l : Outstanding) (t : AnalysisTask) : Type 0 where
    pub owned : owned_settlement token t ≡ ok s
    pub in_progress : is_phase s.phase TerminalSettlementPhase.cleanup_in_progress ≡ true
    pub open_facts : s.facts ≡ none
    pub undecided : s.quarantine_decided ≡ false
    pub unused : s.quarantine_used ≡ false
    pub original : kept s.original_file_deleted l.original_deleted ≡ true
    pub artifacts : kept s.artifact_cleanup_completed l.artifact_cleanup_completed ≡ true
    pub intermediate : kept s.intermediate_files_deleted l.intermediate_deleted ≡ true

  recorded :
      (p : Progress) (s : TerminalSettlement) (t : AnalysisTask)
      → owned_settlement token t ≡ ok s
      → is_phase s.phase TerminalSettlementPhase.cleanup_in_progress ≡ true
      → only_adds p s ≡ true
      → record_cleanup_progress token p t ≡ ok (with_settlement t (advance p s))
  unfolding record_cleanup_progress
  recorded p s t o i a = rw o (rw i (rw a refl))

  still_owned :
      (s u : TerminalSettlement) (t : AnalysisTask)
      → u.owner_token ≡ s.owner_token
      → owned_settlement token t ≡ ok s
      → owned_settlement token (with_settlement t u) ≡ ok u
  unfolding owned_settlement
  still_owned s u t e o = ground arith

  pub noted-IsHeld :
      (s : TerminalSettlement) (l : Outstanding) (t : AnalysisTask) (a : Bool)
      → IsHeld s l t
      → (record_cleanup_progress token (noted l a) t
          ≡ ok (with_settlement t (advance (noted l a) s)))
        × IsHeld (advance (noted l a) s) l (with_settlement t (advance (noted l a) s))
  unfolding only_adds advance
  noted-IsHeld s l t a h = (
    recorded (noted l a) s t h.owned h.in_progress (ground arith),
    record {
      owned = still_owned s (advance (noted l a) s) t refl h.owned;
      in_progress = h.in_progress;
      open_facts = h.open_facts;
      undecided = h.undecided;
      unused = refl;
      original = kept_refl l.original_deleted;
      artifacts = kept_refl l.artifact_cleanup_completed;
      intermediate = kept_refl l.intermediate_deleted;
    },
  )

  marked :
      (identity : ℕ) (f : CleanupFacts) (s : TerminalSettlement) (t : AnalysisTask)
      → owned_settlement token t ≡ ok s
      → is_phase s.phase TerminalSettlementPhase.cleanup_in_progress ≡ true
      → s.facts ≡ none
      → s.quarantine_decided ≡ true
      → f.original_file_deleted ≡ s.original_file_deleted
      → f.intermediate_files_deleted ≡ s.intermediate_files_deleted
      → f.quarantine_used ≡ s.quarantine_used
      → mark_terminal_facts_ready identity token f t
        ≡ ok (
            with_settlement t
              (record s { phase = TerminalSettlementPhase.fact_ready; facts = some (identity, f) }))
  unfolding mark_terminal_facts_ready
  marked identity f s t o i n d a b c = rw o (ground arith)

  -- The decision is accepted, and then so are the facts of the locals.
  pub decided-accepted :
      (s : TerminalSettlement) (l : Outstanding) (t : AnalysisTask) (used : Bool) (identity : ℕ)
      (e : ErrorDetail)
      → IsHeld s l t
      → (t' : AnalysisTask) × (record_cleanup_progress token (decided l used) t ≡ ok t')
        × ((u : AnalysisTask) × (mark_terminal_facts_ready identity token
                (facts e l.original_deleted l.intermediate_deleted used)
                t'
              ≡ ok u))
  unfolding only_adds advance
  decided-accepted s l t used identity e h =
      let after = advance (decided l used) s in
      let owned = still_owned s after t refl h.owned in
      (
        with_settlement t after,
        recorded (decided l used) s t h.owned h.in_progress (ground arith),
        (
          _,
          marked identity (facts e l.original_deleted l.intermediate_deleted used) after
              (with_settlement t after) owned h.in_progress h.open_facts refl refl refl refl,
        ),
      )
