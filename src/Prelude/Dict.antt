-- ===== src/Prelude/Dict.antt =====
-- A dict with string keys whose values are objects that are changed in place: an association
-- list in the order of insertion.
use Prim.Native.String.{String}
use mathlib.Core.Path.{◌≡◌, refl, sym, subst}
use mathlib.Core.Bool.{false}
use mathlib.Core.Logic.{inl, inr}
use mathlib.Core.Option.{Option, none, some}
use mathlib.Core.List.{List, [], ◌∷◌, ◌++◌}
use native.Mathlib.Omega.{arith}
use text.Mathlib.Text.{◌==◌}
use text.Mathlib.TextEquality.{eq_iff}
use fakedetector.Prelude.Tests.{if◌then◌else◌, Bool-cases}
use fakedetector.Prelude.Lists.{All, length}

module _ {ℓ} {V : Type ℓ} where
  unfoldable pub find : String → List (String × V) → Option V
  find k [] = none
  find k ((j, v) ∷ d) = if j == k then some v else find k d

  -- the object at `k` is now `v`; a missing key changes nothing
  unfoldable pub replace : String → V → List (String × V) → List (String × V)
  replace k v [] = []
  replace k v ((j, w) ∷ d) = if j == k then (j, v) ∷ d else (j, w) ∷ replace k v d

  -- d.pop(k, None)
  unfoldable pub remove : String → List (String × V) → List (String × V)
  remove k [] = []
  remove k ((j, w) ∷ d) = if j == k then remove k d else (j, w) ∷ remove k d

  abbrev update : Option V → V → Option V
  update none v = none
  update (some w) v = some v

  pub find-replace :
      (k j : String) (v : V) (d : List (String × V))
      → find j (replace k v d) ≡ (if k == j then update (find j d) v else find j d)
  unfolding find replace
  find-replace k j v [] = ground arith
  find-replace k j v ((i, w) ∷ d) =
      ground (arith, eq_iff k j, eq_iff i k, eq_iff i j, find-replace k j v d)

  pub find-remove :
      (k j : String) (d : List (String × V))
      → find j (remove k d) ≡ (if k == j then none else find j d)
  unfolding find remove
  find-remove k j [] = ground arith
  find-remove k j ((i, w) ∷ d) =
      ground (arith, eq_iff k j, eq_iff i k, eq_iff i j, find-remove k j d)

  pub length-replace :
      (k : String) (v : V) (d : List (String × V)) → length (replace k v d) ≡ length d
  unfolding replace
  length-replace k v [] = refl
  length-replace k v ((i, w) ∷ d) = ground (arith, length-replace k v d)

-- The dict after `d[k] = v` of a key that it does not have.
module _ {ℓ} {V : Type ℓ} where
  pub find-snoc :
      (k : String) (v : V) (d : List (String × V))
      → find k d ≡ none
      → find k (d ++ (k, v) ∷ []) ≡ some v
  unfolding find
  find-snoc k v [] h = ground (arith, eq_iff k k)
  find-snoc k v ((i, w) ∷ d) h = ground (arith, find-snoc k v d)

  pub find-snoc_other :
      (j k : String) (v : V) (d : List (String × V))
      → find j d ≡ none
      → (k == j) ≡ false
      → find j (d ++ (k, v) ∷ []) ≡ none
  unfolding find
  find-snoc_other j k v [] h e = rw e
  find-snoc_other j k v ((i, w) ∷ d) h e = ground (arith, find-snoc_other j k v d)

  pub replace-snoc :
      (k : String) (v u : V) (d : List (String × V))
      → find k d ≡ none
      → replace k u (d ++ (k, v) ∷ []) ≡ d ++ (k, u) ∷ []
  unfolding find replace
  replace-snoc k v u [] h = ground (arith, eq_iff k k)
  replace-snoc k v u ((i, w) ∷ d) h = ground (arith, replace-snoc k v u d)

  pub remove-snoc :
      (k : String) (v : V) (d : List (String × V))
      → find k d ≡ none
      → remove k (d ++ (k, v) ∷ []) ≡ d
  unfolding find remove
  remove-snoc k v [] h = ground (arith, eq_iff k k)
  remove-snoc k v ((i, w) ∷ d) h = ground (arith, remove-snoc k v d)

-- A predicate on the keys and values.
abbrev pub Entries {ℓ κ} : {V : Type ℓ} → (String → V → Type κ) → List (String × V) → Type κ
Entries P = All (λ e. P e.0 e.1)

module _ {ℓ κ} {V : Type ℓ} (P : String → V → Type κ) where
  pub Entries-find :
      (k : String) (d : List (String × V)) {v : V} → Entries P d → find k d ≡ some v → P k v
  unfolding find
  Entries-find k [] h e = cc
  Entries-find k ((j, w) ∷ d) {v} h e = elim (Bool-cases (j == k)) [
    | inl t ↦
        let same : w ≡ v = cc (t, e) in subst (λ x. P x v) ((eq_iff j k).0 t) (subst (P j) same h.0)
    | inr f ↦ Entries-find k d h.1 (rw f at e)
  ]

  pub Entries-replace :
      (k : String) (v : V) (d : List (String × V)) → P k v → Entries P d → Entries P (replace k v d)
  unfolding replace
  Entries-replace k v [] p h = tt
  Entries-replace k v ((j, w) ∷ d) p h = elim (Bool-cases (j == k)) [
    | inl t ↦ rw t (subst (λ x. P x v) (sym ((eq_iff j k).0 t)) p, h.1)
    | inr f ↦ rw f (h.0, Entries-replace k v d p h.1)
  ]

  pub Entries-remove : (k : String) (d : List (String × V)) → Entries P d → Entries P (remove k d)
  unfolding remove
  Entries-remove k [] h = tt
  Entries-remove k ((j, w) ∷ d) h = elim (Bool-cases (j == k)) [
    | inl t ↦ rw t (Entries-remove k d h.1)
    | inr f ↦ rw f (h.0, Entries-remove k d h.1)
  ]
