-- ===== src/Tests/Preprocessing.antt =====
-- The demands, sizes and budgets of the preprocessing at concrete inputs.
use fakedetector.Prelude.{
  ℕ, ◌≡◌, refl, ◌*◌, ◌-◌, ◌≤◌, true, false, ◌&&◌, some, List, [], ◌∷◌, ok, err, value_error, guard,
  arith, leb, if◌then◌else◌,
}
use fakedetector.Domain.{image}
use fakedetector.Preprocessing.Requirements.Capabilities.{
  ForensicCapability, av_timeline, timing_records, stream_timing, jpeg_coefficients, audio_spectral,
  image_capabilities, dependencies, has, same_capability, ordinal,
}
use fakedetector.Preprocessing.Requirements.{
  visit, expand, enough, closure, is_closed, closed_under, subset, declare, validate_media,
  aggregate, allowed_for, PreprocessingRequirements,
}
use fakedetector.Preprocessing.Requirements.Least.{closure_closed, closure_least}
use fakedetector.Preprocessing.Requirements.Routes.{
  validate-declare, aggregate_union, some_declare, any_demands, all_closed,
}
use fakedetector.Preprocessing.Sizes.{
  checked_product, check_product, multiply, product, all_positive, checked_product-product,
}
use fakedetector.Preprocessing.Policy.{
  forensic_policy, accept_policy, coherent_limits, all_in_range,
}
use fakedetector.Preprocessing.Budget.{
  Artifacts, Reach, starts, steps, opens, calls, writes, closes, operate, write, close,
  claim_extent, new_budget, new_writer,
}
use fakedetector.Preprocessing.Jpeg.{
  JpegHeader, allocate, preflight, block_shapes, count_coefficients, blocks_per_mcu, max_horizontal,
  max_vertical, is_header, all_sampled, all_distinct, has_component, all_divide,
}
use fakedetector.Preprocessing.Jpeg.Allocation.{preflight-allocate}
use fakedetector.Preprocessing.Coordinates.{ImageCoordinates, Numbers, turned_right}
use fakedetector.Preprocessing.Budget.Bounds.{files_within_budget, total_extent, total_size}

expands : closure (av_timeline ∷ []) ≡ stream_timing ∷ timing_records ∷ av_timeline ∷ []
unfolding closure expand visit dependencies has same_capability ordinal
expands = refl

closure_closed_example :
    (expand (enough (jpeg_coefficients ∷ [])) (jpeg_coefficients ∷ []) (jpeg_coefficients ∷ [])
      ≡ some (closure (jpeg_coefficients ∷ [])))
    × (subset (jpeg_coefficients ∷ []) (closure (jpeg_coefficients ∷ [])) ≡ true)
    × (is_closed (closure (jpeg_coefficients ∷ [])) ≡ true)
closure_closed_example = closure_closed (jpeg_coefficients ∷ [])

closure_least_example : subset (closure (jpeg_coefficients ∷ [])) image_capabilities ≡ true
unfolding closed_under subset image_capabilities has same_capability ordinal dependencies
closure_least_example = closure_least (jpeg_coefficients ∷ []) image_capabilities refl refl

validate-declare_example :
    validate_media image (declare true false (audio_spectral ∷ []))
    ≡ guard (subset (audio_spectral ∷ []) (allowed_for image)) value_error
validate-declare_example = validate-declare image true false (audio_spectral ∷ [])

abbrev declared : List PreprocessingRequirements
declared = declare true false (audio_spectral ∷ []) ∷ declare false true (stream_timing ∷ []) ∷ []

aggregate_union_example :
    ((aggregate declared).audio_spectrogram ≡ some_declare (λ r. r.audio_spectrogram) declared)
    × ((aggregate declared).video_audio_track ≡ some_declare (λ r. r.video_audio_track) declared)
    × ((c : ForensicCapability) → has (aggregate declared).forensic c ≡ any_demands declared c)
unfolding all_closed declare closed_under subset closure expand visit dependencies has
    same_capability ordinal
aggregate_union_example = aggregate_union declared refl

checked_product-product_example : checked_product 100 (3 ∷ 4 ∷ []) ≡ (
    if all_positive (3 ∷ 4 ∷ []) && leb (product (3 ∷ 4 ∷ [])) 100
    then ok (product (3 ∷ 4 ∷ []))
    else err value_error)
checked_product-product_example = checked_product-product 100 (3 ∷ 4 ∷ []) (omega arith)

defaults_accepted : accept_policy forensic_policy ≡ ok forensic_policy
unfolding accept_policy coherent_limits all_in_range forensic_policy check_product checked_product
    multiply
defaults_accepted = refl

-- One file of a task with one mebibyte: 10 bytes, of which the file keeps 4, and a close.
abbrev written : Artifacts
written = record {
  budget = record { max_bytes = 1048576; used_bytes = 10 };
  writers = record { extent = 10; closed = true; size = 4; position = 4 } ∷ [];
}

writing : Reach 1 written
unfolding new_budget new_writer operate write close claim_extent
writing =
    steps (steps (steps starts (opens _ [])) (calls (writes 10 6 false true) _ [] [] _))
      (calls (closes false) _ [] [] _)

files_within_budget_example :
    (10 ≡ total_extent written.writers) × (total_size written.writers ≤ 1 * 1048576)
files_within_budget_example = files_within_budget 1 writing

abbrev photo : ImageCoordinates
photo = record { native_width = 40; native_height = 30; orientation = some turned_right }

-- halves of a pixel: an odd number is a centre
abbrev halves : Numbers
halves = record {
  Number = ℕ;
  whole = λ n. 2 * n;
  is_finite = λ x. true;
  at_most = leb;
  minus = λ a b. a - b;
}

-- a baseline colour header with its chroma halved in both directions
abbrev colour : JpegHeader
colour = record {
  width = 17;
  height = 9;
  components =
      record { component_id = 1; horizontal_sampling = 2; vertical_sampling = 2 }
      ∷ record { component_id = 2; horizontal_sampling = 1; vertical_sampling = 1 }
      ∷ record { component_id = 3; horizontal_sampling = 1; vertical_sampling = 1 }
      ∷ [];
}

colour_allocation :
    allocate 4096 forensic_policy colour
    ≡ ok (record {
      shapes = (2, 3) ∷ (1, 2) ∷ (1, 2) ∷ [];
      output_coefficients = 640;
      native_coefficients = 768;
    })
unfolding allocate forensic_policy check_product checked_product multiply block_shapes
    count_coefficients blocks_per_mcu max_horizontal max_vertical
colour_allocation = refl

preflight-allocate_example :
    preflight 4096 forensic_policy colour ≡ allocate 4096 forensic_policy colour
unfolding forensic_policy is_header all_sampled all_distinct has_component all_divide blocks_per_mcu
    max_horizontal max_vertical
preflight-allocate_example =
    preflight-allocate 4096 forensic_policy colour refl (omega arith) (omega arith)
