-- ===== src/Prelude/Lists.antt =====
-- Lists over the native numbers.
use Prim.Native.Nat.{ℕ, suc, ◌+◌}
use Prim.Native.String.{String}
use mathlib.Core.Path.{◌≡◌, refl}
use mathlib.Core.Bool.{Bool, false, not, ◌&&◌, ◌||◌}
use mathlib.Core.List.{List, [], ◌∷◌, ◌++◌}
use native.Mathlib.Omega.{arith}
use text.Mathlib.Text.{◌==◌}
use text.Mathlib.TextEquality.{eq_iff}
use fakedetector.Prelude.Tests.{if◌then◌else◌}

module _ {ℓ} {A : Type ℓ} where
  abbrev pub length : List A → ℕ
  length [] = 0
  length (x ∷ xs) = suc (length xs)

  pub length-append : (xs ys : List A) → length (xs ++ ys) ≡ length xs + length ys
  length-append [] ys = omega arith
  length-append (x ∷ xs) ys = omega (arith, length-append xs ys)

-- A predicate that holds of each element computes to a tuple.
abbrev pub All {ℓ κ} : {A : Type ℓ} → (A → Type κ) → List A → Type κ
All P [] = Unit
All P (x ∷ xs) = P x × All P xs

pub All-++ {ℓ κ} :
    {A : Type ℓ} (P : A → Type κ) (xs ys : List A) → All P xs → All P ys → All P (xs ++ ys)
All-++ P [] ys h k = k
All-++ P (x ∷ xs) ys h k = (h.0, All-++ P xs ys h.1 k)

abbrev pub contains : List String → String → Bool
contains [] s = false
contains (x ∷ xs) s = (x == s) || contains xs s

-- set.discard, and set.remove of an element that is there
unfoldable pub discard : String → List String → List String
discard s [] = []
discard s (x ∷ xs) = if x == s then discard s xs else x ∷ discard s xs

pub contains-discard :
    (j s : String) (xs : List String) → contains (discard s xs) j ≡ (contains xs j && not (s == j))
unfolding discard
contains-discard j s [] = refl
contains-discard j s (x ∷ xs) =
    ground (arith, contains-discard j s xs, eq_iff x s, eq_iff x j, eq_iff s j)

pub discard_fresh : (s : String) (xs : List String) → contains xs s ≡ false → discard s xs ≡ xs
unfolding discard
discard_fresh s [] h = refl
discard_fresh s (x ∷ xs) h = ground (arith, discard_fresh s xs)

pub discard_added :
    (id : String) (ids : List String) → contains ids id ≡ false → discard id (id ∷ ids) ≡ ids
unfolding discard
discard_added id ids fresh = ground (arith, eq_iff id id, discard_fresh id ids)
