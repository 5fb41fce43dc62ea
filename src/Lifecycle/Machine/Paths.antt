-- ===== src/Lifecycle/Machine/Paths.antt =====
-- Paths through the state machine: they only go forward, and every one can be completed.
use fakedetector.Prelude.{ℕ, suc, ◌+◌, ◌<◌, ◌≤◌, Bool, true, false, ◌≡◌, refl, arith}
use fakedetector.Domain.{AnalysisStatus, ProcessingStage}
use fakedetector.Lifecycle.Machine.{allowed}

-- The place of a stage in the lifecycle.
abbrev place : ProcessingStage → ℕ
place ProcessingStage.registered = 0
place ProcessingStage.validation = 1
place ProcessingStage.routing = 1
place ProcessingStage.queued = 2
place ProcessingStage.preprocessing = 3
place ProcessingStage.analysis = 4
place ProcessingStage.finding_formation = 5
place ProcessingStage.risk_assessment = 5
place ProcessingStage.result_formation = 6
place ProcessingStage.cleanup = 6
place ProcessingStage.persistence = 7
place ProcessingStage.finished = 8

-- A sequence of transitions of the table, and how many they are.
pub data Transitions (s : AnalysisStatus) (g : ProcessingStage)
    : ℕ → AnalysisStatus → ProcessingStage → Type 0 where
  here : Transitions s g 0 s g
  next :
      {n : ℕ} {s' s'' : AnalysisStatus} {g' g'' : ProcessingStage}
      → Transitions s g n s' g'
      → allowed s' g' s'' g'' ≡ true
      → Transitions s g (suc n) s'' g''

place-le : (g : ProcessingStage) → place g ≤ 8
place-le g = ground arith

allowed_forward :
    (s s' : AnalysisStatus) (g g' : ProcessingStage) → allowed s g s' g' ≡ true → place g < place g'
unfolding allowed
allowed_forward s s' g g' h = ground arith

path_length :
    {s : AnalysisStatus} {g : ProcessingStage} {n : ℕ} {s' : AnalysisStatus} {g' : ProcessingStage}
    → Transitions s g n s' g'
    → place g + n ≤ place g'
path_length here = omega arith
path_length (next {s' = a} {s'' = b} {g' = x} {g'' = y} way h) =
    omega (arith, path_length way, allowed_forward a b x y h)

-- What a path from the start reaches: the pairs of a live task, and the published ones.
abbrev is_reached : AnalysisStatus → ProcessingStage → Bool
is_reached AnalysisStatus.queued ProcessingStage.registered = true
is_reached AnalysisStatus.queued ProcessingStage.routing = true
is_reached AnalysisStatus.queued ProcessingStage.queued = true
is_reached AnalysisStatus.running ProcessingStage.preprocessing = true
is_reached AnalysisStatus.running ProcessingStage.analysis = true
is_reached AnalysisStatus.running ProcessingStage.risk_assessment = true
is_reached AnalysisStatus.completed ProcessingStage.cleanup = true
is_reached AnalysisStatus.completed ProcessingStage.persistence = true
is_reached AnalysisStatus.completed ProcessingStage.finished = true
is_reached AnalysisStatus.partial ProcessingStage.cleanup = true
is_reached AnalysisStatus.partial ProcessingStage.persistence = true
is_reached AnalysisStatus.partial ProcessingStage.finished = true
is_reached AnalysisStatus.failed ProcessingStage.cleanup = true
is_reached AnalysisStatus.failed ProcessingStage.persistence = true
is_reached AnalysisStatus.failed ProcessingStage.finished = true
is_reached _ _ = false

allowed_reached :
    (s s' : AnalysisStatus) (g g' : ProcessingStage)
    → allowed s g s' g' ≡ true
    → is_reached s' g' ≡ true
unfolding allowed
allowed_reached s s' g g' h = ground arith

abbrev Completes : AnalysisStatus → ProcessingStage → Type 0
Completes s g = (n : ℕ) × (s' : AnalysisStatus) × Transitions s g n s' ProcessingStage.finished

-- one more transition in front
cons :
    {s s' : AnalysisStatus} {g g' : ProcessingStage} {n : ℕ} {t : AnalysisStatus}
    {h : ProcessingStage}
    → allowed s g s' g' ≡ true
    → Transitions s' g' n t h
    → Transitions s g (suc n) t h
cons e here = next here e
cons e (next way f) = next (cons e way) f

through :
    (s s' : AnalysisStatus) (g g' : ProcessingStage)
    → allowed s g s' g' ≡ true
    → Completes s' g'
    → Completes s g
through s s' g g' e (n, t, way) = (suc n, t, cons e way)

stay : (s : AnalysisStatus) → Completes s ProcessingStage.finished
stay s = (0, s, here)

-- from CLEANUP, for a status that is an outcome
publish :
    (s : AnalysisStatus)
    → allowed s ProcessingStage.cleanup s ProcessingStage.persistence ≡ true
    → allowed s ProcessingStage.persistence s ProcessingStage.finished ≡ true
    → Completes s ProcessingStage.cleanup
publish s e f =
    through s s _ ProcessingStage.persistence e (through s s _ ProcessingStage.finished f (stay s))

fail : Completes AnalysisStatus.failed ProcessingStage.cleanup
unfolding allowed
fail = publish AnalysisStatus.failed refl refl

completes : (s : AnalysisStatus) (g : ProcessingStage) → is_reached s g ≡ true → Completes s g
unfolding allowed
completes AnalysisStatus.completed ProcessingStage.finished h = stay _
completes AnalysisStatus.partial ProcessingStage.finished h = stay _
completes AnalysisStatus.failed ProcessingStage.finished h = stay _
completes AnalysisStatus.completed ProcessingStage.persistence h =
    through AnalysisStatus.completed AnalysisStatus.completed _ _ refl (stay _)
completes AnalysisStatus.partial ProcessingStage.persistence h =
    through AnalysisStatus.partial AnalysisStatus.partial _ _ refl (stay _)
completes AnalysisStatus.failed ProcessingStage.persistence h =
    through AnalysisStatus.failed AnalysisStatus.failed _ _ refl (stay _)
completes AnalysisStatus.completed ProcessingStage.cleanup h =
    publish AnalysisStatus.completed refl refl
completes AnalysisStatus.partial ProcessingStage.cleanup h =
    publish AnalysisStatus.partial refl refl
completes AnalysisStatus.failed ProcessingStage.cleanup h = fail
completes AnalysisStatus.running ProcessingStage.preprocessing h =
    through _ AnalysisStatus.failed _ ProcessingStage.cleanup refl fail
completes AnalysisStatus.running ProcessingStage.analysis h =
    through _ AnalysisStatus.failed _ ProcessingStage.cleanup refl fail
completes AnalysisStatus.running ProcessingStage.risk_assessment h =
    through _ AnalysisStatus.failed _ ProcessingStage.cleanup refl fail
completes AnalysisStatus.queued ProcessingStage.queued h =
    through _ AnalysisStatus.failed _ ProcessingStage.cleanup refl fail
completes AnalysisStatus.queued ProcessingStage.routing h =
    through _ AnalysisStatus.queued _ ProcessingStage.queued refl
      (through _ AnalysisStatus.failed _ ProcessingStage.cleanup refl fail)
completes AnalysisStatus.queued ProcessingStage.registered h =
    through _ AnalysisStatus.queued _ ProcessingStage.routing refl (
      through _ AnalysisStatus.queued _ ProcessingStage.queued refl
        (through _ AnalysisStatus.failed _ ProcessingStage.cleanup refl fail))
completes s g h = cc

path_reached :
    {n : ℕ} {s : AnalysisStatus} {g : ProcessingStage}
    → Transitions AnalysisStatus.queued ProcessingStage.registered n s g
    → is_reached s g ≡ true
path_reached here = refl
path_reached (next {s' = a} {s'' = b} {g' = x} {g'' = y} way h) = allowed_reached a b x y h

-- Every path of the transition table from a registered task is at most eight transitions long, and
-- can be completed to FINISHED: no status and stage on it is a dead end.
pub lifecycle_paths :
    {n : ℕ} {s : AnalysisStatus} {g : ProcessingStage}
    → Transitions AnalysisStatus.queued ProcessingStage.registered n s g
    → (n ≤ 8) × ((m : ℕ) × (s' : AnalysisStatus) × Transitions s g m s' ProcessingStage.finished)
lifecycle_paths {s = s} {g = g} way =
    (omega (arith, path_length way, place-le g), completes s g (path_reached way))
