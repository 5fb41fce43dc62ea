-- ===== src/Lifecycle/Scheduler/Leaving.antt =====
-- That `start`, `shutdown` and `_stop_after_worker_termination` of
-- fakedetector/lifecycle/scheduler.py leave no provisional item in a scheduler that does not run.
use fakedetector.Prelude.{
  Bool, true, false, ◌≡◌, refl, sym, ap, subst, arith, if◌then◌else◌, Bool-cases, inl, inr, ok, err,
  guard, scheduler_state, then-ok, guard-ok, ok-injective,
}
use fakedetector.Lifecycle.Scheduler.{
  Scheduler, SchedulerState, is_running, is_leaving, begun, may_shut_down, not_started, running,
  shutting_down, stopped, discard_provisional, start, end_start, begin_shutdown, end_shutdown,
  stop_after_worker_termination,
}
use fakedetector.Lifecycle.Scheduler.Order.{IsTallied, is_settled, IsOrderly}
use fakedetector.Lifecycle.Scheduler.Release.{
  discard_provisional-IsTallied, discard_provisional-settled,
}

-- The state and the flags do not count.
restated-IsTallied :
    (state : SchedulerState) (drain progress terminated : Bool) (s : Scheduler)
    → IsTallied s
    → IsTallied (record s {
      state = state;
      drain = drain;
      shutdown_in_progress = progress;
      terminated = terminated;
    })
restated-IsTallied state drain progress terminated s h = record {
  image_bound = h.image_bound;
  audio_bound = h.audio_bound;
  video_bound = h.video_bound;
  counted = h.counted;
}

-- a scheduler that has left stays settled
left-settled :
    (s : Scheduler) (state : SchedulerState) (drain progress terminated : Bool)
    → is_running s.state ≡ false
    → is_leaving state ≡ true
    → is_settled s ≡ true
    → is_settled (record s {
      state = state;
      drain = drain;
      shutdown_in_progress = progress;
      terminated = terminated;
    })
      ≡ true
unfolding is_settled
left-settled s state drain progress terminated e f h = ground arith

stopping-IsOrderly :
    (drain progress terminated : Bool) (s : Scheduler)
    → IsOrderly s
    → IsOrderly (
        discard_provisional (record s {
          state = SchedulerState.shutting_down;
          drain = drain;
          shutdown_in_progress = progress;
          terminated = terminated;
        }))
stopping-IsOrderly drain progress terminated s h = (
  discard_provisional-IsTallied _
      (restated-IsTallied SchedulerState.shutting_down drain progress terminated s h.0),
  discard_provisional-settled _ refl,
)

started-settled :
    (s : Scheduler)
    → s.state ≡ not_started
    → is_settled s ≡ true
    → is_settled (record s { state = running }) ≡ true
unfolding is_settled
started-settled s e h = ground arith

start_inv :
    (launched : Bool) (s : Scheduler) {t : Scheduler}
    → start launched s ≡ ok t
    → (s.state ≡ not_started)
      × (t ≡ (
          if launched
          then record s { state = running }
          else record s { state = shutting_down; drain = false }))
unfolding start
start_inv launched s {t} e = go s.state refl e
  where
    go :
        (state : SchedulerState)
        → s.state ≡ state
        → elim state [
          | not_started ↦ ok (
              if launched
              then record s { state = running }
              else record s { state = shutting_down; drain = false })
          | _ ↦ err scheduler_state
        ]
          ≡ ok t
        → (s.state ≡ not_started)
          × (t ≡ (
              if launched
              then record s { state = running }
              else record s { state = shutting_down; drain = false }))
    go not_started e f = (e, ok-injective f)
    go running e f = cc
    go shutting_down e f = cc
    go stopped e f = cc

pub start-IsOrderly :
    (launched : Bool) (s : Scheduler) {t : Scheduler}
    → start launched s ≡ ok t
    → IsOrderly s
    → IsOrderly t
start-IsOrderly true s e h =
    let (fresh, made) = start_inv true s e in
    subst IsOrderly (sym made) (
      restated-IsTallied running s.drain s.shutdown_in_progress s.terminated s h.0,
      started-settled s fresh h.1,
    )
start-IsOrderly false s e h =
    let (fresh, made) = start_inv false s e in
    subst IsOrderly (sym made) (
      restated-IsTallied shutting_down false s.shutdown_in_progress s.terminated s h.0,
      left-settled s shutting_down false s.shutdown_in_progress s.terminated (ap is_running fresh)
          refl h.1,
    )

leaving-stays : (s : Scheduler) → is_leaving s.state ≡ true → is_running s.state ≡ false
leaving-stays s l = ground arith

pub end_start-IsOrderly :
    (s : Scheduler) → is_leaving s.state ≡ true → IsOrderly s → IsOrderly (end_start s)
unfolding end_start
end_start-IsOrderly s l h = (
  restated-IsTallied stopped s.drain s.shutdown_in_progress s.terminated s h.0,
  left-settled s stopped s.drain s.shutdown_in_progress s.terminated (leaving-stays s l) refl h.1,
)

shuts_down-leaves :
    (s : Scheduler)
    → may_shut_down s ≡ true
    → is_running s.state ≡ false
    → is_leaving s.state ≡ true
shuts_down-leaves s m r = ground arith

begun-IsOrderly :
    (drain : Bool) (s : Scheduler)
    → may_shut_down s ≡ true
    → IsOrderly s
    → IsOrderly (begun drain s)
unfolding begun
begun-IsOrderly drain s m h = elim (Bool-cases (is_running s.state)) [
  | inl r ↦ rw r (stopping-IsOrderly drain true s.terminated s h)
  | inr r ↦ rw r (
    restated-IsTallied s.state s.drain true s.terminated s h.0,
    left-settled s s.state s.drain true s.terminated r (shuts_down-leaves s m r) h.1,
  )
]

pub begin_shutdown-IsOrderly :
    (drain : Bool) (s : Scheduler) {t : Scheduler}
    → begin_shutdown drain s ≡ ok t
    → IsOrderly s
    → IsOrderly t
begin_shutdown-IsOrderly drain s e h =
    let (allowed, e) = then-ok (guard (may_shut_down s) scheduler_state) (ok (begun drain s)) e in
    subst IsOrderly (sym (ok-injective e)) (begun-IsOrderly drain s (guard-ok _ _ allowed) h)

pub shutdown-leaves :
    (s : Scheduler)
    → s.shutdown_in_progress ≡ true
    → is_settled s ≡ true
    → is_running s.state ≡ false
unfolding is_settled
shutdown-leaves s p h = ground arith

pub end_shutdown-IsOrderly :
    (s : Scheduler) → s.shutdown_in_progress ≡ true → IsOrderly s → IsOrderly (end_shutdown s)
unfolding end_shutdown
end_shutdown-IsOrderly s p h = (
  restated-IsTallied SchedulerState.stopped s.drain false s.terminated s h.0,
  left-settled s SchedulerState.stopped s.drain false s.terminated (shutdown-leaves s p h.1) refl
      h.1,
)

pub stop_after-IsOrderly :
    (s : Scheduler) → IsOrderly s → IsOrderly (stop_after_worker_termination s)
unfolding stop_after_worker_termination is_settled
stop_after-IsOrderly s h = elim (Bool-cases (is_running s.state)) [
  | inl r ↦ rw r (stopping-IsOrderly false s.shutdown_in_progress true s h)
  | inr r ↦ rw r (restated-IsTallied s.state s.drain s.shutdown_in_progress true s h.0, h.1)
]
