-- ===== src/Preprocessing/Coordinates.antt =====
-- `ImageCoordinates` of fakedetector/preprocessing/_models.py: the edges of the native image in the
-- oriented one. Python's numbers, ints and floats alike, are an argument, with the operations that
-- the code has on them.
pub mod Turned
use fakedetector.Prelude.{
  ℕ, Bool, true, false, ◌&&◌, ◌||◌, not, Option, none, some, Result, ok, err, value_error, guard,
  ◌>>=◌, ◌>>◌, if◌then◌else◌,
}

pub record Numbers : Type 1 where
  pub Number : Type 0
  pub whole : ℕ → Number
  pub is_finite : Number → Bool
  pub at_most : Number → Number → Bool
  pub minus : Number → Number → Number

-- the EXIF orientations 1 to 8
pub data Orientation : Type 0 where
  upright mirrored upside_down flipped transposed turned_right transversed turned_left : Orientation

pub record ImageCoordinates : Type 0 where
  pub native_width : ℕ
  pub native_height : ℕ
  pub orientation : Option Orientation

-- self.orientation >= 5
abbrev pub swaps_sides : Orientation → Bool
swaps_sides upright = false
swaps_sides mirrored = false
swaps_sides upside_down = false
swaps_sides flipped = false
swaps_sides transposed = true
swaps_sides turned_right = true
swaps_sides transversed = true
swaps_sides turned_left = true

abbrev pub size_for : Orientation → ℕ → ℕ → ℕ × ℕ
size_for o width height = if swaps_sides o then (height, width) else (width, height)

unfoldable pub oriented_size : ImageCoordinates → Result (ℕ × ℕ)
oriented_size c = elim c.orientation [
  | none ↦ err value_error
  | some o ↦ ok (size_for o c.native_width c.native_height)
]

module _ (numbers : Numbers) where
  abbrev N : Type 0
  N = Numbers.Number numbers

  -- size - value
  abbrev pub reflect : ℕ → N → N
  reflect size value = Numbers.minus numbers (Numbers.whole numbers size) value

  -- 0 <= value <= size
  abbrev pub is_within : ℕ → N → Bool
  is_within size value =
      Numbers.at_most numbers (Numbers.whole numbers 0) value
      && Numbers.at_most numbers value (Numbers.whole numbers size)

  -- the tuple of `transform_edge`
  abbrev pub place : Orientation → ℕ → ℕ → N → N → N × N
  place upright width height x y = (x, y)
  place mirrored width height x y = (reflect width x, y)
  place upside_down width height x y = (reflect width x, reflect height y)
  place flipped width height x y = (x, reflect height y)
  place transposed width height x y = (y, x)
  place turned_right width height x y = (reflect height y, x)
  place transversed width height x y = (reflect height y, reflect width x)
  place turned_left width height x y = (y, reflect width x)

  -- the body after the test of the orientation
  abbrev pub place_checked : Orientation → ℕ → ℕ → N → N → Result (N × N)
  place_checked o width height x y = do
    guard (Numbers.is_finite numbers x && Numbers.is_finite numbers y) value_error
    guard (is_within width x && is_within height y) value_error
    ok (place o width height x y)

  unfoldable pub transform_edge : ImageCoordinates → N → N → Result (N × N)
  transform_edge c x y = elim c.orientation [
    | none ↦ err value_error
    | some o ↦ place_checked o c.native_width c.native_height x y
  ]
