-- ===== src/Preprocessing/Requirements/Capabilities.antt =====
-- `ForensicCapability` of fakedetector/preprocessing/_requirements.py with its tables.
use fakedetector.Prelude.{
  ℕ, Bool, true, false, ◌||◌, List, [], ◌∷◌, ◌++◌, ◌≡◌, refl, sym, ap, ◌∙◌, arith, ◌==◌,
  if◌then◌else◌,
}

pub data ForensicCapability : Type 0 where
  original_image jpeg_structure jpeg_coefficients image_coordinates : ForensicCapability
  residual_raster audio_precision audio_samples audio_spectral : ForensicCapability
  stream_timing timing_records dense_video av_timeline : ForensicCapability

abbrev pub all_capabilities : List ForensicCapability
all_capabilities =
    original_image ∷ jpeg_structure ∷ jpeg_coefficients ∷ image_coordinates ∷ residual_raster
    ∷ audio_precision ∷ audio_samples ∷ audio_spectral ∷ stream_timing ∷ timing_records
    ∷ dense_video ∷ av_timeline ∷ []

-- the position of a capability in the enumeration
unfoldable pub ordinal : ForensicCapability → ℕ
ordinal original_image = 0
ordinal jpeg_structure = 1
ordinal jpeg_coefficients = 2
ordinal image_coordinates = 3
ordinal residual_raster = 4
ordinal audio_precision = 5
ordinal audio_samples = 6
ordinal audio_spectral = 7
ordinal stream_timing = 8
ordinal timing_records = 9
ordinal dense_video = 10
ordinal av_timeline = 11

unfoldable pub same_capability : ForensicCapability → ForensicCapability → Bool
unfolding ordinal
same_capability a b = ordinal a == ordinal b

-- `c in s`
unfoldable pub has : List ForensicCapability → ForensicCapability → Bool
has [] c = false
has (x ∷ xs) c = same_capability x c || has xs c

-- _DEPENDENCIES.get(c, ())
unfoldable pub dependencies : ForensicCapability → List ForensicCapability
dependencies jpeg_structure = original_image ∷ []
dependencies jpeg_coefficients = jpeg_structure ∷ image_coordinates ∷ []
dependencies image_coordinates = original_image ∷ []
dependencies residual_raster = image_coordinates ∷ []
dependencies audio_samples = audio_precision ∷ []
dependencies audio_spectral = audio_samples ∷ []
dependencies timing_records = stream_timing ∷ []
dependencies dense_video = stream_timing ∷ []
dependencies av_timeline = timing_records ∷ []
dependencies _ = []

unfoldable pub image_capabilities : List ForensicCapability
image_capabilities =
    original_image ∷ jpeg_structure ∷ jpeg_coefficients ∷ image_coordinates ∷ residual_raster ∷ []

unfoldable pub audio_capabilities : List ForensicCapability
audio_capabilities =
    audio_precision ∷ audio_samples ∷ audio_spectral ∷ stream_timing ∷ timing_records ∷ []

unfoldable pub video_capabilities : List ForensicCapability
unfolding audio_capabilities
video_capabilities = audio_capabilities ++ dense_video ∷ av_timeline ∷ []

at_ordinal : ℕ → ForensicCapability
at_ordinal n =
    if n == 0
    then original_image
    else if n == 1
    then jpeg_structure
    else if n == 2
    then jpeg_coefficients
    else if n == 3
    then image_coordinates
    else if n == 4
    then residual_raster
    else if n == 5
    then audio_precision
    else if n == 6
    then audio_samples
    else if n == 7
    then audio_spectral
    else if n == 8
    then stream_timing
    else if n == 9
    then timing_records
    else if n == 10
    then dense_video
    else av_timeline

at-ordinal : (c : ForensicCapability) → at_ordinal (ordinal c) ≡ c
unfolding at_ordinal ordinal
at-ordinal original_image = refl
at-ordinal jpeg_structure = refl
at-ordinal jpeg_coefficients = refl
at-ordinal image_coordinates = refl
at-ordinal residual_raster = refl
at-ordinal audio_precision = refl
at-ordinal audio_samples = refl
at-ordinal audio_spectral = refl
at-ordinal stream_timing = refl
at-ordinal timing_records = refl
at-ordinal dense_video = refl
at-ordinal av_timeline = refl

pub same_capability_eq : (a b : ForensicCapability) → same_capability a b ≡ true → a ≡ b
unfolding same_capability
same_capability_eq a b e =
    let same : ordinal a ≡ ordinal b = ground arith in
    sym (at-ordinal a) ∙ ap at_ordinal same ∙ at-ordinal b

pub same_capability_refl : (a : ForensicCapability) → same_capability a a ≡ true
unfolding same_capability
same_capability_refl a = ground arith

pub has-append :
    (c : ForensicCapability) (xs ys : List ForensicCapability)
    → has (xs ++ ys) c ≡ (has xs c || has ys c)
unfolding has
has-append c [] ys = refl
has-append c (x ∷ xs) ys = ground (arith, has-append c xs ys)
