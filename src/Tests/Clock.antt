-- ===== src/Tests/Clock.antt =====
-- The lifecycle clock (fakedetector/core/clock.py) on concrete samples.
use fakedetector.Prelude.{none, some, List, [], ◌∷◌, ◌≡◌, refl, ok}
use fakedetector.Core.Clock.{utc, other, LifecycleClock, new_clock, now, Call, emissions, calendar}
use fakedetector.Core.Clock.Order.{AtMost, NonDecreasing, now_bounds, emissions-NonDecreasing}

abbrev anchored : LifecycleClock
anchored = record { anchor = some (100, 5000) }

-- a raw clock that jumps back, then one that raises
abbrev calls : List Call
calls =
    record { not_before = none; raw = utc 100; monotonic = some 5000 }
    ∷ record { not_before = none; raw = utc 40; monotonic = some 8999 }
    ∷ record { not_before = some (utc 500); raw = other; monotonic = some 9000 }
    ∷ record { not_before = none; raw = other; monotonic = some 12000 }
    ∷ []

jump_back : emissions new_clock calls ≡ 100 ∷ 103 ∷ 106 ∷ []
unfolding emissions now
jump_back = refl

fallback : now none other (some 7500) anchored ≡ ok (102, record { anchor = some (102, 7500) })
unfolding now
fallback = refl

now_bounds_example :
    AtMost none 102 × AtMost (some 100) 102 × (calendar (some (102, 7500)) ≡ some 102)
now_bounds_example = now_bounds none other (some 7500) anchored fallback

emissions-NonDecreasing_example : NonDecreasing (emissions new_clock calls)
emissions-NonDecreasing_example = emissions-NonDecreasing new_clock calls
