-- ===== src/Lifecycle/Receiver.antt =====
-- `Stage4TaskReceiver` of fakedetector/lifecycle/receiver.py with the `MediaRouter` of
-- lifecycle/execution.py: the hand-over of an accepted analysis to the registry and the queue.
-- The task that the registry holds and the task that the queue is given are one object: each call
-- reads it from the registry. `pathlib`'s answers on a name are a parameter.
pub mod Reserving
pub mod Pending
pub mod Atomic
pub mod Accepted
use fakedetector.Prelude.{
  ℕ, String, Bool, true, false, ◌&&◌, ◌||◌, not, Option, none, some, List, [], ◌∷◌, Result, ok, err,
  value_error, route_binding, stage4_receiver, guard, is_some, is_none, str_eq, find?, ◌==◌,
  if◌then◌else◌,
}
use fakedetector.Prelude.Runs.{
  Run, returned, raised, Action, proceed, ◌>>=◌, ◌>>◌, give, from_result,
}
use fakedetector.Core.Clock.{LifecycleClock, Sample, now}
use fakedetector.Domain.{MediaType, AnalysisStatus, ProcessingStage, same_media}
use fakedetector.Lifecycle.Task.{Datetime, utc, other, AnalysisTask, fresh_task}
use fakedetector.Lifecycle.Staging.{staged_transition, bind_route, mark_enqueued}
use fakedetector.Lifecycle.Registry.{TaskRegistry, get, modify, reserve, rollback}
use fakedetector.Lifecycle.Queue.{TaskQueue}

-- ValidatedFileDescriptor: its media type, and its other fields as one value
pub record ValidatedFile : Type 0 where
  pub media_type : MediaType
  pub facts : String

-- The source is the number of its object, beside the analysis that it belongs to.
pub record Stage3Accepted : Type 0 where
  pub analysis_id : String
  pub registered_at : Datetime
  pub validation_accepted : Bool
  pub validation_file : Option ValidatedFile
  pub validated_file : ValidatedFile
  pub source_analysis_id : String
  pub source : ℕ

pub record PathFacts : Type 0 where
  pub has_drive : String → Bool
  pub is_reserved : String → Bool
  pub parent_is_root : String → Bool

-- The objects that the call makes, and what the raw clocks answer to it.
pub record Call : Type 0 where
  pub identity : ℕ
  pub registry_token : ℕ
  pub raw : Sample
  pub monotonic : Option ℕ

pub record World (Queue : Type 0) : Type 0 where
  pub registry : TaskRegistry
  pub queue : Queue
  pub clock : LifecycleClock

-- MediaRouter.resolve
unfoldable pub resolve : List (MediaType × ℕ) → MediaType → Result ℕ
resolve [] media = err route_binding
resolve ((m, executor) ∷ bindings) media =
    if same_media m media then ok executor else resolve bindings media

abbrev same_file : Option ValidatedFile → ValidatedFile → Bool
same_file none g = false
same_file (some f) g = same_media f.media_type g.media_type && str_eq f.facts g.facts

unfoldable pub validate_accepted : Stage3Accepted → Result (Unit {0})
validate_accepted a =
    if not (str_eq a.analysis_id a.source_analysis_id)
    then err value_error
    else if not a.validation_accepted || is_none a.validation_file
    then err value_error
    else if not (same_file a.validation_file a.validated_file)
    then err value_error
    else ok tt

-- `text in value`
abbrev is_in : String → String → Bool
is_in text value = is_some (find? value text)

-- _workspace_path, by whether it returns
unfoldable pub is_safe_identity : PathFacts → String → Bool
is_safe_identity paths id =
    not (str_eq id "")
    && not (str_eq id "." || str_eq id "..")
    && not (is_in "/" id)
    && not (is_in "\\" id)
    && not (is_in ":" id)
    && not (is_in "\0" id)
    && not (paths.has_drive id)
    && not (paths.is_reserved id)
    && paths.parent_is_root id

-- the constructors of AnalysisContext and AnalysisTask, whose other checks `validate_accepted` made
unfoldable pub make_task : String → Call → Stage3Accepted → Datetime → Result AnalysisTask
make_task snapshot call a other = err value_error
make_task snapshot call a (utc created) =
    if str_eq snapshot ""
    then err value_error
    else ok (
        fresh_task call.identity a.analysis_id created a.validated_file.media_type snapshot a.source
          call.registry_token)

module _ (Q : TaskQueue) where
  -- A method of the registry, of the clock, and of the queue on the shared state.
  abbrev pub on_registry : (TaskRegistry → Result TaskRegistry) → Action (World Q.State) (Unit {0})
  on_registry method w =
      (from_result (method w.registry) >>= λ r v. returned tt (record v { registry = r })) w

  abbrev pub clock_now : Call → Action (World Q.State) ℕ
  clock_now call w =
      (from_result (now none call.raw call.monotonic w.clock) >>= λ emitted v.
      returned emitted.0 (record v { clock = emitted.1 }))
        w

  abbrev pub on_queue : (Q.State → Result Q.State) → Action (World Q.State) (Unit {0})
  on_queue method w =
      (from_result (method w.queue) >>= λ q v. returned tt (record v { queue = q })) w

  abbrev pub held_task : String → Action (World Q.State) AnalysisTask
  held_task id w = from_result (get id w.registry) w

  -- accept, from the enqueue on
  abbrev pub hand_in : String → ℕ → ℕ → AnalysisTask → Action (World Q.State) (Unit {0})
  hand_in id executor queued_at task = do
    on_queue (Q.enqueue task executor)
    on_registry (modify id (mark_enqueued (utc queued_at)))
    on_queue (Q.commit id)

  -- accept, from the reservation on
  unfoldable pub hand_over :
      List (MediaType × ℕ) → String → MediaType → Call → Action (World Q.State) (Unit {0})
  hand_over bindings id media call = do
    on_registry
        (modify id (staged_transition AnalysisStatus.queued ProcessingStage.routing none none))
    executor ← from_result (resolve bindings media)
    on_registry (modify id (bind_route media))
    on_registry
        (modify id (staged_transition AnalysisStatus.queued ProcessingStage.queued none none))
    queued_at ← clock_now call
    task ← held_task id
    hand_in id executor queued_at task

  -- accept, up to the reservation
  unfoldable pub prepare :
      PathFacts → String → Call → Stage3Accepted → Action (World Q.State) (Unit {0})
  prepare paths snapshot call a = do
    from_result (validate_accepted a)
    from_result (guard (is_safe_identity paths a.analysis_id) value_error)
    task ← from_result (make_task snapshot call a a.registered_at)
    on_registry (reserve task)

  -- the handler: undone when the task was reserved
  abbrev pub undo : String → World Q.State → World Q.State
  undo id w = record w { queue = Q.remove id w.queue; registry = rollback id w.registry }

  abbrev pub handled :
      (World Q.State → World Q.State)
      → Run (World Q.State) (Unit {0})
      → Run (World Q.State) (Unit {0})
  handled undoing (returned done w) = returned done w
  handled undoing (raised exception w) = raised stage4_receiver (undoing w)

  abbrev pub after_reservation :
      List (MediaType × ℕ)
      → Stage3Accepted
      → Call
      → Run (World Q.State) (Unit {0})
      → Run (World Q.State) (Unit {0})
  after_reservation bindings a call (raised exception w) = raised stage4_receiver w
  after_reservation bindings a call (returned done w) =
      handled (undo a.analysis_id)
        (hand_over bindings a.analysis_id a.validated_file.media_type call w)

  unfoldable pub accept :
      PathFacts
      → List (MediaType × ℕ)
      → String
      → Call
      → Stage3Accepted
      → Action (World Q.State) (Unit {0})
  accept paths bindings snapshot call a w =
      after_reservation bindings a call (prepare paths snapshot call a w)
