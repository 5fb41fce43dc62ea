-- ===== src/Core/Clock.antt =====
-- `AuthoritativeLifecycleClock` of fakedetector/core/clock.py. What the two raw clocks answer is
-- given to each call; times are microseconds of UTC, and the monotonic samples nanoseconds.
pub mod Order
use fakedetector.Prelude.{
  ℕ, ◌+◌, ◌-◌, ◌/◌, Bool, true, false, ◌&&◌, not, Option, none, some, Result, ok, err, clock,
  clock_invariant, ◌>>=◌, ◌>>◌, guard, ltb, leb, if◌then◌else◌, List, [], ◌∷◌,
}

-- What a clock, or a caller, hands over as a datetime: an aware UTC time, or anything else (an
-- exception, another object, a naive or a shifted datetime).
pub data Sample : Type 0 where
  utc : ℕ → Sample
  other : Sample

-- The two anchors are set together.
pub record LifecycleClock : Type 0 where
  pub anchor : Option (ℕ × ℕ)

abbrev pub new_clock : LifecycleClock
new_clock = record { anchor = none }

-- _validate_lower_bound
abbrev pub validate_lower_bound : Option Sample → Result (Option ℕ)
validate_lower_bound none = ok none
validate_lower_bound (some (utc t)) = ok (some t)
validate_lower_bound (some other) = err clock_invariant

-- _sample_monotonic; `none` is an exception or a value that is no integer
abbrev pub sample_monotonic : Option ℕ → Result ℕ
sample_monotonic none = err clock_invariant
sample_monotonic (some m) = ok m

abbrev pub at_least : Option ℕ → ℕ → Bool
at_least none t = true
at_least (some b) t = leb b t

abbrev pub calendar : Option (ℕ × ℕ) → Option ℕ
calendar none = none
calendar (some a) = some a.0

-- monotonic_sample < self._monotonic_anchor
abbrev pub regressed : Option (ℕ × ℕ) → ℕ → Bool
regressed none m = false
regressed (some a) m = ltb m a.1

-- _valid_raw_sample
abbrev pub valid_raw_sample : Option (ℕ × ℕ) → Option ℕ → Sample → Bool
valid_raw_sample anchor bound other = false
valid_raw_sample anchor bound (utc t) = at_least (calendar anchor) t && at_least bound t

abbrev emit : ℕ → ℕ → ℕ × LifecycleClock
emit t m = (t, record { anchor = some (t, m) })

-- _nanoseconds_as_timedelta
unfoldable pub nanoseconds_as_timedelta : ℕ → ℕ
nanoseconds_as_timedelta value = value / 1000

-- the anchor moved on by the monotonic time that has passed
abbrev pub extrapolate : Option (ℕ × ℕ) → Option ℕ → ℕ → Result (ℕ × LifecycleClock)
extrapolate none bound m = err clock
extrapolate (some a) bound m =
    let emitted = a.0 + nanoseconds_as_timedelta (m - a.1) in
    if at_least bound emitted then ok (emit emitted m) else err clock_invariant

abbrev pub emit_raw : Sample → ℕ → Result (ℕ × LifecycleClock)
emit_raw (utc t) m = ok (emit t m)
emit_raw other m = err clock

unfoldable pub now :
    Option Sample → Sample → Option ℕ → LifecycleClock → Result (ℕ × LifecycleClock)
unfolding nanoseconds_as_timedelta
now not_before raw monotonic c = do
  bound ← validate_lower_bound not_before
  m ← sample_monotonic monotonic
  guard (not (regressed c.anchor m)) clock_invariant
  if valid_raw_sample c.anchor bound raw then emit_raw raw m else extrapolate c.anchor bound m

-- One call of `now`: its bound, and what the raw clocks answer to it.
pub record Call : Type 0 where
  pub not_before : Option Sample
  pub raw : Sample
  pub monotonic : Option ℕ

abbrev pub settle : LifecycleClock → Result (ℕ × LifecycleClock) → LifecycleClock
settle c (ok r) = r.1
settle c (err e) = c

abbrev pub emitted_by : Result (ℕ × LifecycleClock) → List ℕ → List ℕ
emitted_by (ok r) rest = r.0 ∷ rest
emitted_by (err e) rest = rest

-- The times that a sequence of calls emits; a call that raises leaves the clock as it was.
unfoldable pub emissions : LifecycleClock → List Call → List ℕ
emissions c [] = []
emissions c (k ∷ ks) =
    let r = now k.not_before k.raw k.monotonic c in emitted_by r (emissions (settle c r) ks)
