-- ===== src/Tests/Receiver.antt =====
-- The receiver (fakedetector/lifecycle/receiver.py) in front of both queues, on one audio analysis.
use fakedetector.Prelude.{
  ◌≡◌, refl, ℕ, true, false, some, none, List, [], ◌∷◌, ok, ◌≤◌, stage4_receiver, arith, discard,
  find, remove, replace,
}
use fakedetector.Prelude.Runs.{returned, raised}
use fakedetector.Core.Clock.{Sample, new_clock, now, nanoseconds_as_timedelta}
use fakedetector.Domain.{MediaType, audio}
use fakedetector.Lifecycle.Task.{Datetime, AnalysisTask, fresh_task}
use fakedetector.Lifecycle.Machine.{transition, project_context, allowed}
use fakedetector.Lifecycle.Staging.{staged_transition, bind_route, mark_enqueued}
use fakedetector.Lifecycle.Registry.{empty_registry, get, modify, reserve, rollback, contains_task}
use fakedetector.Lifecycle.Queue.Fifo
use fakedetector.Lifecycle.Queue.Fifo.{
  fifo, fifo-IsLawful, empty_queue, DeterministicTaskQueue, IsInStep, pop_next-IsInStep, appended,
  pop_next, pop_items, entries, may_enqueue,
}
use fakedetector.Lifecycle.Receiver.{
  World, Call, Stage3Accepted, PathFacts, ValidatedFile, accept, prepare, hand_over, resolve,
  validate_accepted, is_safe_identity, make_task,
}
use fakedetector.Lifecycle.Receiver.Reserving.{joined}
use fakedetector.Lifecycle.Receiver.Atomic.{accept_atomic}
use fakedetector.Lifecycle.Receiver.Accepted.{accept_accepts, accept_returns, queued_task}

abbrev paths : PathFacts
paths = record { has_drive = λ s. false; is_reserved = λ s. false; parent_is_root = λ s. true }

abbrev bindings : List (MediaType × ℕ)
bindings = (audio, 7) ∷ []

abbrev file : ValidatedFile
file = record { media_type = audio; facts = "wav" }

abbrev accepted : Stage3Accepted
accepted = record {
  analysis_id = "a1";
  registered_at = Datetime.utc 5;
  validation_accepted = true;
  validation_file = some file;
  validated_file = file;
  source_analysis_id = "a1";
  source = 3;
}

abbrev call : Call
call = record { identity = 1; registry_token = 2; raw = Sample.utc 6; monotonic = some 0 }

filled-IsInStep : IsInStep (appended "a1" 7 empty_queue)
unfolding empty_queue entries
filled-IsInStep x = ground arith

abbrev world : World DeterministicTaskQueue
world = record { registry = empty_registry; queue = empty_queue; clock = new_clock }

-- The clock answers a time before the registration, so the enqueue time is refused.
abbrev late_call : Call
late_call = record { identity = 1; registry_token = 2; raw = Sample.utc 4; monotonic = some 0 }

empty_queue-IsInStep : IsInStep empty_queue
unfolding empty_queue entries
empty_queue-IsInStep x = refl

abbrev queued : AnalysisTask
queued = queued_task "s" call accepted 5

abbrev filled : DeterministicTaskQueue
filled = appended "a1" 7 empty_queue

abbrev world_after : World DeterministicTaskQueue
world_after = record {
  registry = joined "a1" (record queued { queued_at = some 6 }) empty_registry;
  queue = filled;
  clock = record { anchor = some (6, 0) };
}

accepts : accept fifo paths bindings "s" call accepted world ≡ returned tt world_after
unfolding empty_queue empty_registry resolve validate_accepted is_safe_identity Fifo.enqueue
    Fifo.commit may_enqueue fresh_task now nanoseconds_as_timedelta find
accepts =
    accept_returns fifo paths bindings "s" call accepted world 5 7 6 filled filled
      (record { anchor = some (6, 0) }) refl refl refl refl refl refl refl refl (omega arith) refl
      refl

accept_returns_example :
    accept fifo paths bindings "s" call accepted world ≡ returned tt world_after
unfolding empty_queue empty_registry resolve validate_accepted is_safe_identity Fifo.enqueue
    Fifo.commit may_enqueue fresh_task now nanoseconds_as_timedelta find
accept_returns_example =
    accept_returns fifo paths bindings "s" call accepted world 5 7 6 filled filled
      (record { anchor = some (6, 0) }) refl refl refl refl refl refl refl refl (omega arith) refl
      refl

accept_accepts_example :
    (created executor t : ℕ) × (s : DeterministicTaskQueue) × (Datetime.utc 5
      ≡ Datetime.utc created)
    × (find "a1" empty_registry.tasks ≡ none)
    × (resolve bindings audio ≡ ok executor)
    × (now none (Sample.utc 6) (some 0) new_clock ≡ ok (t, record { anchor = some (6, 0) }))
    × (created ≤ t)
    × (Fifo.enqueue (queued_task "s" call accepted created) executor empty_queue ≡ ok s)
    × (Fifo.commit "a1" s ≡ ok filled)
    × (world_after.registry
        ≡ joined "a1"
            (record (queued_task "s" call accepted created) { queued_at = some t })
            empty_registry)
accept_accepts_example = accept_accepts fifo paths bindings "s" call accepted world accepts

late :
    accept fifo paths bindings "s" late_call accepted world
    ≡ raised stage4_receiver (record world { clock = record { anchor = some (4, 0) } })
unfolding empty_queue empty_registry accept prepare hand_over resolve validate_accepted
    is_safe_identity make_task Fifo.enqueue Fifo.commit Fifo.remove may_enqueue fresh_task
    staged_transition transition project_context allowed bind_route mark_enqueued get modify reserve
    contains_task now nanoseconds_as_timedelta find replace remove rollback discard Fifo.without
late = refl

accept_atomic_example :
    (stage4_receiver ≡ stage4_receiver)
    × (empty_registry ≡ empty_registry)
    × (empty_queue ≡ empty_queue)
unfolding empty_queue
accept_atomic_example =
    accept_atomic fifo fifo-IsLawful paths bindings "s" late_call accepted world
      empty_queue-IsInStep refl late
