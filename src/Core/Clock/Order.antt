-- ===== src/Core/Clock/Order.antt =====
-- The authoritative times never run backwards, whatever the raw clock does.
use fakedetector.Prelude.{
  ℕ, ◌≤◌, Option, none, some, ok, err, List, [], ◌∷◌, ◌≡◌, refl, arith, Result, subst,
}
use fakedetector.Core.Clock.{
  Sample, utc, other, LifecycleClock, now, Call, emissions, calendar, emitted_by, settle,
}

abbrev pub AtMost : Option ℕ → ℕ → Type 0
AtMost none t = Unit {0}
AtMost (some b) t = b ≤ t

abbrev bound_of : Option Sample → Option ℕ
bound_of none = none
bound_of (some (utc t)) = some t
bound_of (some other) = none

-- A time that is emitted is not before the bound that the caller gave, nor before the last time
-- that the clock emitted, and is the clock's new anchor.
pub now_bounds :
    (b : Option Sample) (raw : Sample) (m : Option ℕ) (c : LifecycleClock) {t : ℕ}
    {d : LifecycleClock}
    → now b raw m c ≡ ok (t, d)
    → AtMost (bound_of b) t × AtMost (calendar c.anchor) t × (calendar d.anchor ≡ some t)
unfolding now
now_bounds b raw m c e = (ground arith, ground arith, ground arith)

abbrev Above : Option ℕ → List ℕ → Type 0
Above low [] = Unit {0}
Above low (t ∷ ts) = AtMost low t × Above (some t) ts

abbrev pub NonDecreasing : List ℕ → Type 0
NonDecreasing [] = Unit {0}
NonDecreasing (t ∷ ts) = Above (some t) ts

-- one call, and what follows it
first-Above :
    (c : LifecycleClock) (k : Call) (ks : List Call) (r : Result (ℕ × LifecycleClock))
    → now k.not_before k.raw k.monotonic c ≡ r
    → ((d : LifecycleClock) → Above (calendar d.anchor) (emissions d ks))
    → Above (calendar c.anchor) (emitted_by r (emissions (settle c r) ks))
first-Above c k ks (ok (t, d)) e rest =
    let (_, after, anchored) = now_bounds k.not_before k.raw k.monotonic c e in
    (after, subst (λ x. Above x (emissions d ks)) anchored (rest d))
first-Above c k ks (err x) e rest = rest c

emissions-Above : (c : LifecycleClock) (ks : List Call) → Above (calendar c.anchor) (emissions c ks)
unfolding emissions
emissions-Above c [] = tt
emissions-Above c (k ∷ ks) = first-Above c k ks _ refl (λ d. emissions-Above d ks)

drop-Above : (low : Option ℕ) (ts : List ℕ) → Above low ts → NonDecreasing ts
drop-Above low [] h = tt
drop-Above low (t ∷ ts) h = h.1

-- The times that one clock emits never decrease, whatever its raw clocks answer, whichever bounds
-- the callers give, and whichever calls raise in between.
pub emissions-NonDecreasing : (c : LifecycleClock) (ks : List Call) → NonDecreasing (emissions c ks)
emissions-NonDecreasing c ks =
    drop-Above (calendar c.anchor) (emissions c ks) (emissions-Above c ks)
