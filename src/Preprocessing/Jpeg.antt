-- ===== src/Preprocessing/Jpeg.antt =====
-- `JpegHeader` and `JpegAllocation` of fakedetector/preprocessing/_models.py: the sizes that a native
-- decoding of JPEG coefficients would take, before it is done.
pub mod Allocation
use fakedetector.Prelude.{
  ℕ, ◌+◌, ◌-◌, ◌*◌, ◌/◌, Bool, true, false, ◌&&◌, ◌||◌, not, List, [], ◌∷◌, Result, ok, err,
  value_error, guard, ◌>>=◌, ◌>>◌, ltb, leb, ◌==◌, if◌then◌else◌, length,
}
use Prim.Native.Nat.{◌%◌}
use fakedetector.Preprocessing.Sizes.{checked_product, check_product}
use fakedetector.Preprocessing.Policy.{ForensicResourcePolicy}

pub record JpegComponent : Type 0 where
  pub component_id : ℕ
  pub horizontal_sampling : ℕ
  pub vertical_sampling : ℕ

-- The precision is 8 bits; the coding is not read.
pub record JpegHeader : Type 0 where
  pub width : ℕ
  pub height : ℕ
  pub components : List JpegComponent

-- _MAX_INDEX
abbrev pub max_index : ℕ
max_index = 9223372036854775807

abbrev larger : ℕ → ℕ → ℕ
larger a b = if leb a b then b else a

-- the maximum of the sampling factors
unfoldable pub max_horizontal : List JpegComponent → ℕ
max_horizontal [] = 0
max_horizontal (c ∷ cs) = larger c.horizontal_sampling (max_horizontal cs)

unfoldable pub max_vertical : List JpegComponent → ℕ
max_vertical [] = 0
max_vertical (c ∷ cs) = larger c.vertical_sampling (max_vertical cs)

-- the sum of the products of the sampling factors
unfoldable pub blocks_per_mcu : List JpegComponent → ℕ
blocks_per_mcu [] = 0
blocks_per_mcu (c ∷ cs) = c.horizontal_sampling * c.vertical_sampling + blocks_per_mcu cs

-- (size * sampling + 8 * max_sampling - 1) // (8 * max_sampling)
abbrev pub blocks : ℕ → ℕ → ℕ → ℕ
blocks size sampling max_sampling = (size * sampling + 8 * max_sampling - 1) / (8 * max_sampling)

unfoldable pub block_shapes : ℕ → ℕ → ℕ → ℕ → List JpegComponent → List (ℕ × ℕ)
block_shapes width height max_h max_v [] = []
block_shapes width height max_h max_v (c ∷ cs) =
    (blocks height c.vertical_sampling max_v, blocks width c.horizontal_sampling max_h)
    ∷ block_shapes width height max_h max_v cs

-- sum(_checked_product(rows, cols, 64) for rows, cols in shapes)
unfoldable pub count_coefficients : List (ℕ × ℕ) → Result ℕ
count_coefficients [] = ok 0
count_coefficients (shape ∷ shapes) = do
  one ← checked_product max_index (shape.0 ∷ shape.1 ∷ 64 ∷ [])
  rest ← count_coefficients shapes
  ok (one + rest)

-- block_shapes is `shapes`; the bounds of a single field, above 0 and within _MAX_INDEX, are not modelled
pub record JpegAllocation : Type 0 where
  pub shapes : List (ℕ × ℕ)
  pub output_coefficients : ℕ
  pub native_coefficients : ℕ

-- `bounded`, with the ceiling of the default policy
unfoldable pub bounded : JpegAllocation → Result JpegAllocation
unfolding count_coefficients
bounded a = do
  count ← count_coefficients a.shapes
  guard (a.output_coefficients == count) value_error
  guard (leb a.output_coefficients a.native_coefficients && leb a.native_coefficients 4194304)
      value_error
  ok a

-- preflight, up to the construction of its result
unfoldable pub allocate : ℕ → ForensicResourcePolicy → JpegHeader → Result JpegAllocation
unfolding block_shapes count_coefficients
allocate source_bytes policy h = do
  check_product policy.jpeg_input_bytes (source_bytes ∷ [])
  let max_h = max_horizontal h.components
  let max_v = max_vertical h.components
  let shapes = block_shapes h.width h.height max_h max_v h.components
  output_count ← count_coefficients shapes
  mcus ← checked_product max_index (blocks h.width 1 max_h ∷ blocks h.height 1 max_v ∷ [])
  padded_count ←
      checked_product policy.jpeg_coefficients (mcus ∷ 64 ∷ blocks_per_mcu h.components ∷ [])
  ok (record {
    shapes = shapes;
    output_coefficients = output_count;
    native_coefficients = padded_count;
  })

unfoldable pub preflight : ℕ → ForensicResourcePolicy → JpegHeader → Result JpegAllocation
unfolding allocate bounded
preflight source_bytes policy h = do a ← allocate source_bytes policy h; bounded a

abbrev in_range : ℕ → ℕ → ℕ → Bool
in_range low value high = leb low value && leb value high

unfoldable pub all_sampled : List JpegComponent → Bool
all_sampled [] = true
all_sampled (c ∷ cs) =
    in_range 1 c.horizontal_sampling 4 && in_range 1 c.vertical_sampling 4 && all_sampled cs

unfoldable pub has_component : ℕ → List JpegComponent → Bool
has_component id [] = false
has_component id (c ∷ cs) = (c.component_id == id) || has_component id cs

unfoldable pub all_distinct : List JpegComponent → Bool
all_distinct [] = true
all_distinct (c ∷ cs) = not (has_component c.component_id cs) && all_distinct cs

unfoldable pub all_divide : ℕ → ℕ → List JpegComponent → Bool
all_divide max_h max_v [] = true
all_divide max_h max_v (c ∷ cs) =
    (max_h % c.horizontal_sampling == 0)
    && (max_v % c.vertical_sampling == 0)
    && all_divide max_h max_v cs

-- The bounds of the fields that the preflight reads and the validator `sampling`, by whether the header
-- is accepted; the bounds of a component's identifiers are not modelled.
unfoldable pub is_header : JpegHeader → Bool
unfolding all_sampled all_distinct all_divide
is_header h =
    let cs = h.components in
    in_range 1 h.width 65535
    && in_range 1 h.height 65535
    && in_range 1 (length cs) 4
    && all_sampled cs
    && all_distinct cs
    && leb (blocks_per_mcu cs) 10
    && all_divide (max_horizontal cs) (max_vertical cs) cs
