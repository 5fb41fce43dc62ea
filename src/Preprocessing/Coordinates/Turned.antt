-- ===== src/Preprocessing/Coordinates/Turned.antt =====
-- That the coordinates of fakedetector/preprocessing/_models.py can be turned back.
use fakedetector.Prelude.{ℕ, true, some, ◌≡◌, Result, ok}
use fakedetector.Preprocessing.Coordinates.{
  Orientation, upright, mirrored, upside_down, flipped, transposed, turned_right, transversed,
  turned_left, ImageCoordinates, Numbers, size_for, reflect, is_within,
}

-- The orientation that undoes another.
abbrev pub inverse : Orientation → Orientation
inverse upright = upright
inverse mirrored = mirrored
inverse upside_down = upside_down
inverse flipped = flipped
inverse transposed = transposed
inverse turned_right = turned_left
inverse transversed = transversed
inverse turned_left = turned_right

abbrev pub turned_back : ImageCoordinates → Orientation → ImageCoordinates
turned_back c o = record {
  native_width = (size_for o c.native_width c.native_height).0;
  native_height = (size_for o c.native_width c.native_height).1;
  orientation = some (inverse o);
}

abbrev mapped {ℓ} : {A : Type ℓ} → A → A → Result (A × A)
mapped x y = ok (x, y)

module _ (numbers : Numbers)
    (reflect-inside : (size : ℕ) (value : Numbers.Number numbers)
      → Numbers.is_finite numbers value ≡ true
      → is_within numbers size value ≡ true
      → (Numbers.is_finite numbers (reflect numbers size value) ≡ true)
        × (is_within numbers size (reflect numbers size value) ≡ true)) where
  abbrev N : Type 0
  N = Numbers.Number numbers

  -- Subtracting from the size twice gives the value back: nothing is lost by rounding.
  abbrev pub IsExact : ℕ → N → Type 0
  IsExact size value = reflect numbers size (reflect numbers size value) ≡ value

  abbrev IsInside : ℕ → N → Type 0
  IsInside size value =
      (Numbers.is_finite numbers value ≡ true) × (is_within numbers size value ≡ true)
