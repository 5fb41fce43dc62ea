-- ===== src/Lib.antt =====
-- The managed lifecycle of an analysis in FakeDetector.
--
-- A media file that the intake accepts becomes a task. The receiver reserves it in the task registry,
-- moves it through routing to the queue and submits it to the scheduler, whose workers claim and run
-- it: preprocessing, analyzers, findings, assessment. The outcome is recorded, temporary files are
-- cleaned up, the facts of the cleanup are frozen, the result is prepared, persisted and published,
-- and the task leaves the registry. All times come from one clock that does not run backwards.
--
-- What models what. lifecycle/ stands for src/fakedetector/lifecycle/ in the repository:
--   Domain               src/fakedetector/domain/enums.py and src/fakedetector/domain/models.py
--   Core/Clock           src/fakedetector/core/clock.py: AuthoritativeLifecycleClock
--   Lifecycle/Task       lifecycle/models.py and lifecycle/artifacts.py: AnalysisTask and the data
--                        that a task retains; lifecycle/receiver.py: the task that `accept`
--                        constructs
--   Lifecycle/Machine    lifecycle/execution.py: AnalysisStateMachine
--   Lifecycle/Staging    lifecycle/execution.py: the methods of TaskRegistry from routing to the
--                        recorded outcome, on the task that they look up
--   Lifecycle/Settlement lifecycle/execution.py: the methods of TaskRegistry on a terminal
--                        settlement, from its claim to its release or publication
--   Lifecycle/Cleanup    lifecycle/cleanup.py: WorkspaceCleanup, on the methods of Settlement
--   Lifecycle/Registry   lifecycle/execution.py: TaskRegistry, its tasks by id and cleanup claims;
--                        Registry/Steps and Registry/Histories make its methods a step relation,
--                        Registry/Frozen what it keeps of a cleaned task
--   Lifecycle/Scheduler  lifecycle/scheduler.py: BoundedLocalScheduler; Scheduler/Histories makes its
--                        critical sections a step relation
--   Lifecycle/Queue      lifecycle/execution.py: the protocol TaskQueue with its laws, and
--                        DeterministicTaskQueue (Queue/Fifo) and the scheduler (Queue/Bounded) under it
--   Lifecycle/Receiver   lifecycle/receiver.py: Stage4TaskReceiver, over any lawful queue, and the
--                        MediaRouter of lifecycle/execution.py
--   Preprocessing        src/fakedetector/preprocessing/_requirements.py (Requirements, Sizes, Policy),
--                        the coordinates and the JPEG sizes of preprocessing/_models.py
--                        (Coordinates, Jpeg), and
--                        src/fakedetector/_generated_artifact_budget.py (Budget)
--   Analysis/Registry    src/fakedetector/analyzers/_registry.py: AnalyzerRegistry
--   Analysis/Orchestrator src/fakedetector/analyzers/_orchestrator.py: AnalyzerOrchestrator
--   Analysis/Execution   lifecycle/_analysis_execution.py: AnalysisExecutionService, on the methods of
--                        Staging and on the orchestrator
--   Assessment           lifecycle/_assessment.py: the completeness, risk and recommendation services
--   Prelude, Tests       shared helpers, and runs on concrete inputs
--
-- How the code is read. A method that holds a lock is one function on the state, and a history is a
-- sequence of such calls in any order. A method that may raise returns a Result. The methods of the
-- registry raise before they write, so an error carries no state. Times are microseconds, and a
-- datetime that is not an aware UTC time is the value `other`. Objects that are compared by identity
-- (tasks, owner tokens, sources, safety barriers, copies of facts) are numbers. A dictionary is an
-- association list in the order of insertion. In Registry/Steps a bare `transition` is taken to
-- ROUTING and QUEUED alone, and an outcome is recorded for a task whose execution is claimed, as the
-- receiver and the processor do. The claim that a worker makes for the item at the head of a queue is
-- an argument of `take_next`: any answer of the registry. So are the outcomes of the physical
-- operations of a cleanup. A method
-- that works on several shared objects and may raise half way is an action on their state
-- (Prelude/Runs): what it has changed by then stays. The receiver's handler catches every exception
-- that the model has; an interruption of the process is left out. What a worker process, a file, the
-- monotonic clock, or a service that is left out answers is an argument: any answer.
-- Python's floats are a record of the quotient of two counts and two tests,
-- and for coordinates of a difference and two tests;
-- what a theorem needs of them is its hypothesis. One loop runs on
-- fuel, the one over the dependencies of capabilities: it gets a round for each demanded capability and
-- for each of the twelve that can be added, which is shown to be enough. Every other loop that is
-- modelled runs over a list or a count.
--
-- What is not modelled. The analyzers and the worker processes, decoding and probing of media, intake,
-- finding formation, result assembly and storage, the HTTP and web layers: streams, subprocesses, numpy
-- arrays and files. The processor that settles a finished task is left to its parts, the cleanup and the
-- methods of the registry. Of the assessment,
-- the explanation texts and the ensemble model: what its branch of `RiskAssessmentService.assess`
-- answers is an argument. Of the scheduler, threads, waits and recovery sweeps. Fields that are carried
-- and never read (texts, metrics, localizations, evidence) are left out of the records.
mod Prelude
pub mod Domain
pub mod Core
pub mod Lifecycle
pub mod Assessment
pub mod Preprocessing
pub mod Analysis
mod Tests
