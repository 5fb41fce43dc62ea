-- ===== src/Preprocessing/Requirements/Least.antt =====
-- That the loop over the dependencies in fakedetector/preprocessing/_requirements.py computes the
-- least closed set.
use fakedetector.Prelude.{
  ℕ, suc, zero, true, ◌||◌, some, List, [], ◌∷◌, ◌≡◌, refl, sym, ap, subst, ◌∙◌, arith, Bool-cases,
  inl, inr,
}
use fakedetector.Preprocessing.Requirements.Capabilities.{
  ForensicCapability, all_capabilities, dependencies, has, same_capability, same_capability_eq,
  same_capability_refl,
}
use fakedetector.Preprocessing.Requirements.{
  visit, expand, enough, settled, closure, subset, closed_under, is_closed,
}
use fakedetector.Preprocessing.Requirements.Closure.{missing-bound, expand-ends}

abbrev Caps : Type 0
Caps = List ForensicCapability

pub has-subset :
    (s t : Caps) (c : ForensicCapability) → subset s t ≡ true → has s c ≡ true → has t c ≡ true
unfolding subset has
has-subset (x ∷ s) t c h k = elim (Bool-cases (same_capability x c)) [
  | inl e ↦ subst (λ y. has t y ≡ true) (same_capability_eq x c e) (ground arith)
  | inr e ↦ has-subset s t c (ground arith) (rw e at k)
]
has-subset [] t c h k = cc

pub subset_all :
    (s t : Caps) → ((c : ForensicCapability) → has s c ≡ true → has t c ≡ true) → subset s t ≡ true
unfolding subset has
subset_all [] t h = refl
subset_all (x ∷ s) t h =
    let head : has t x ≡ true = h x (rw (same_capability_refl x) refl) in
    rw head (subset_all s t (λ c k. h c (rw k (ground arith))))

pub closed-has :
    (s cs : Caps) (c d : ForensicCapability)
    → closed_under s cs ≡ true
    → has cs c ≡ true
    → has (dependencies c) d ≡ true
    → has s d ≡ true
unfolding closed_under has
closed-has s [] c d h k e = cc
closed-has s (x ∷ cs) c d h k e = elim (Bool-cases (same_capability x c)) [
  | inl same ↦
      let there : subset (dependencies x) s ≡ true = ground arith in
      has-subset (dependencies x) s d there
        (subst (λ y. has (dependencies y) d ≡ true) (sym (same_capability_eq x c same)) e)
  | inr other ↦ closed-has s cs c d (ground arith) (rw other at k) e
]

pub closed_all :
    (s cs : Caps)
    → ((c d : ForensicCapability)
        → has cs c ≡ true
        → has (dependencies c) d ≡ true
        → has s d ≡ true)
    → closed_under s cs ≡ true
unfolding closed_under has
closed_all s [] h = refl
closed_all s (x ∷ cs) h =
    let head : subset (dependencies x) s ≡ true =
      subset_all (dependencies x) s (λ d e. h x d (rw (same_capability_refl x) refl) e) in
    rw head (closed_all s cs (λ c d k e. h c d (rw k (ground arith)) e))

visit-has :
    (deps e p : Caps) (x : ForensicCapability) → has (visit deps e p).0 x ≡ (has e x || has deps x)
unfolding visit has
visit-has [] e p x = ground arith
visit-has (d ∷ deps) e p x = elim (Bool-cases (has e d)) [
  | inl t ↦ elim (Bool-cases (same_capability d x)) [
    | inl same ↦
        let there : has e x ≡ true = subst (λ y. has e y ≡ true) (same_capability_eq d x same) t in
        rw (t, same) (visit-has deps e p x ∙ (rw there refl))
    | inr other ↦ rw (t, other) (visit-has deps e p x)
  ]
  | inr f ↦ rw f (visit-has deps (d ∷ e) (d ∷ p) x ∙ ground arith)
]

visit-pending :
    (deps e p : Caps) (x : ForensicCapability) → has p x ≡ true → has (visit deps e p).1 x ≡ true
unfolding visit has
visit-pending [] e p x h = h
visit-pending (d ∷ deps) e p x h = elim (Bool-cases (has e d)) [
  | inl t ↦ rw t (visit-pending deps e p x h)
  | inr f ↦ rw f (visit-pending deps (d ∷ e) (d ∷ p) x (ground arith))
]

-- what `visit` adds is pending
visit-added :
    (deps e p : Caps) (x : ForensicCapability)
    → has (visit deps e p).0 x ≡ true
    → (has e x || has (visit deps e p).1 x) ≡ true
unfolding visit has
visit-added [] e p x h = ground arith
visit-added (d ∷ deps) e p x h = elim (Bool-cases (has e d)) [
  | inl t ↦ rw t (visit-added deps e p x (rw t at h))
  | inr f ↦
      let rest = visit-added deps (d ∷ e) (d ∷ p) x (rw f at h) in
      let kept = visit-pending deps (d ∷ e) (d ∷ p) x in rw f (ground (arith, rest, kept))
]

-- and nothing is pending but what was, and the dependencies
visit-within :
    (deps e p : Caps) (x : ForensicCapability)
    → has (visit deps e p).1 x ≡ true
    → (has p x || has deps x) ≡ true
unfolding visit has
visit-within [] e p x h = ground arith
visit-within (d ∷ deps) e p x h = elim (Bool-cases (has e d)) [
  | inl t ↦ ground (arith, visit-within deps e p x (rw t at h))
  | inr f ↦ ground (arith, visit-within deps (d ∷ e) (d ∷ p) x (rw f at h))
]

-- Every dependency of a member is a member or the capability is still pending.
abbrev Frontier : Caps → Caps → Type 0
Frontier e p =
    (c d : ForensicCapability)
    → has (dependencies c) d ≡ true
    → has e c ≡ true
    → (has e d || has p c) ≡ true

Frontier-visit :
    (c : ForensicCapability) (e p : Caps)
    → Frontier e (c ∷ p)
    → Frontier (visit (dependencies c) e p).0 (visit (dependencies c) e p).1
unfolding has
Frontier-visit c e p h x d need member =
    let deps = dependencies c in
    let added = visit-added deps e p x member in
    let grown = visit-has deps e p d in
    let kept = visit-pending deps e p x in
    elim (Bool-cases (has e x)) [
      | inr new ↦ ground (arith, added)
      | inl old ↦ elim (Bool-cases (same_capability c x)) [
        | inl same ↦
            let dep : has deps d ≡ true =
              subst (λ y. has (dependencies y) d ≡ true) (sym (same_capability_eq c x same)) need in
            rw (grown, dep) (ground arith)
        | inr other ↦ ground (arith, h x d need old, kept, grown)
      ]
    ]

some-same : {a b : Caps} → some a ≡ some b → a ≡ b
some-same e = cc

expand-closed :
    (fuel : ℕ) (e p : Caps) {s : Caps}
    → expand fuel e p ≡ some s
    → Frontier e p
    → ((c d : ForensicCapability) → has s c ≡ true → has (dependencies c) d ≡ true → has s d ≡ true)
      × ((c : ForensicCapability) → has e c ≡ true → has s c ≡ true)
unfolding expand has
expand-closed fuel e [] {s} f h =
    let same : e ≡ s = some-same f in
    subst
      (λ s.
        ((c d : ForensicCapability)
          → has s c ≡ true
          → has (dependencies c) d ≡ true
          → has s d ≡ true)
        × ((c : ForensicCapability) → has e c ≡ true → has s c ≡ true))
      same (λ c d k n. ground (arith, h c d n k), λ c k. k)
expand-closed zero e (c ∷ p) f h = cc
expand-closed (suc fuel) e (c ∷ p) {s} f h =
    let next = visit (dependencies c) e p in
    let (closed, kept) = expand-closed fuel next.0 next.1 f (Frontier-visit c e p h) in
    (closed, λ x k. kept x (visit-has (dependencies c) e p x ∙ rw k refl))

expand-least :
    (fuel : ℕ) (e p t : Caps) {s : Caps}
    → expand fuel e p ≡ some s
    → is_closed t ≡ true
    → ((c : ForensicCapability) → has e c ≡ true → has t c ≡ true)
    → ((c : ForensicCapability) → has p c ≡ true → has t c ≡ true)
    → (c : ForensicCapability) → has s c ≡ true
    → has t c ≡ true
unfolding expand has
expand-least fuel e [] t {s} f closed he hp x k =
    he x (subst (λ s. has s x ≡ true) (sym (some-same f)) k)
expand-least zero e (c ∷ p) t f closed he hp x k = cc
expand-least (suc fuel) e (c ∷ p) t f closed he hp x k =
    let deps = dependencies c in
    let there : has t c ≡ true = hp c (rw (same_capability_refl c) refl) in
    let dep = λ (d : ForensicCapability). closed-has t t c d closed there in
    expand-least fuel (visit deps e p).0 (visit deps e p).1 t f closed
      (λ x k. ground (arith, visit-has deps e p x, he x, dep x))
      (λ x k. ground (arith, visit-within deps e p x k, hp x, dep x)) x k

closure_ends :
    (demanded : Caps) → expand (enough demanded) demanded demanded ≡ some (closure demanded)
unfolding closure
closure_ends demanded =
    let (s, e) =
      expand-ends (enough demanded) demanded demanded
        (omega (arith, missing-bound demanded all_capabilities)) in
    e ∙ ap some (sym (ap settled e))

-- The loop of `__post_init__` ends: the rounds that the model allows are enough. Its result has
-- every demanded capability, and every dependency of every capability that it has.
pub closure_closed :
    (demanded : List ForensicCapability)
    → (expand (enough demanded) demanded demanded ≡ some (closure demanded))
      × (subset demanded (closure demanded) ≡ true)
      × (is_closed (closure demanded) ≡ true)
closure_closed demanded =
    let start : Frontier demanded demanded = λ c d n k. rw k (ground arith) in
    let (closed, kept) =
      expand-closed (enough demanded) demanded demanded (closure_ends demanded) start in
    (
      closure_ends demanded,
      subset_all demanded (closure demanded) kept,
      closed_all (closure demanded) (closure demanded) closed,
    )

-- The result is the least such set: every set that has the demanded capabilities and, with a
-- capability, its dependencies has all of the result.
pub closure_least :
    (demanded t : List ForensicCapability)
    → is_closed t ≡ true
    → subset demanded t ≡ true
    → subset (closure demanded) t ≡ true
closure_least demanded t closed within =
    let inside = λ (c : ForensicCapability). has-subset demanded t c within in
    subset_all (closure demanded) t (
      expand-least (enough demanded) demanded demanded t (closure_ends demanded) closed inside
        inside)
