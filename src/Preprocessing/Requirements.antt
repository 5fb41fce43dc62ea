-- ===== src/Preprocessing/Requirements.antt =====
-- `PreprocessingRequirements` of fakedetector/preprocessing/_requirements.py: which representations
-- an analyzer plan demands, with the ones that those depend on. A frozenset is a list without order.
pub mod Capabilities
pub mod Closure
pub mod Least
pub mod Routes
use fakedetector.Prelude.{
  ℕ, suc, zero, ◌+◌, Bool, true, false, ◌&&◌, ◌||◌, Option, none, some, List, [], ◌∷◌, ◌++◌, Result,
  ok, err, value_error, guard, ◌>>=◌, ◌>>◌, if◌then◌else◌, length,
}
use fakedetector.Domain.{MediaType, image, audio, video}
use fakedetector.Preprocessing.Requirements.Capabilities.{
  ForensicCapability, all_capabilities, dependencies, has, image_capabilities, audio_capabilities,
  video_capabilities,
}

pub record PreprocessingRequirements : Type 0 where
  pub audio_spectrogram : Bool
  pub video_audio_track : Bool
  pub forensic : List ForensicCapability

-- The `for` loop over the dependencies of one capability; the head of `pending` is the end of the
-- list in the source, which `pop` takes.
unfoldable pub visit :
    List ForensicCapability
    → List ForensicCapability
    → List ForensicCapability
    → List ForensicCapability × List ForensicCapability
visit [] expanded pending = (expanded, pending)
visit (d ∷ deps) expanded pending =
    if has expanded d then visit deps expanded pending else visit deps (d ∷ expanded) (d ∷ pending)

-- The `while` loop of `__post_init__`; `none` is a loop that has not ended.
unfoldable pub expand :
    ℕ → List ForensicCapability → List ForensicCapability → Option (List ForensicCapability)
expand fuel expanded [] = some expanded
expand zero expanded (c ∷ pending) = none
expand (suc fuel) expanded (c ∷ pending) =
    let next = visit (dependencies c) expanded pending in expand fuel next.0 next.1

-- Every capability becomes pending once, and twelve of them can be added.
abbrev pub enough : List ForensicCapability → ℕ
enough demanded = length all_capabilities + length demanded

abbrev pub settled : Option (List ForensicCapability) → List ForensicCapability
settled none = []
settled (some expanded) = expanded

unfoldable pub closure : List ForensicCapability → List ForensicCapability
closure demanded = settled (expand (enough demanded) demanded demanded)

-- __post_init__, of values of the right types
unfoldable pub declare : Bool → Bool → List ForensicCapability → PreprocessingRequirements
declare spectrogram track demanded = record {
  audio_spectrogram = spectrogram;
  video_audio_track = track;
  forensic = closure demanded;
}

abbrev pub allowed_for : MediaType → List ForensicCapability
allowed_for image = image_capabilities
allowed_for audio = audio_capabilities
allowed_for video = video_capabilities

-- set.issubset
unfoldable pub subset : List ForensicCapability → List ForensicCapability → Bool
subset [] s = true
subset (c ∷ cs) s = has s c && subset cs s

-- Each capability of a set has its dependencies in the set.
unfoldable pub closed_under : List ForensicCapability → List ForensicCapability → Bool
closed_under s [] = true
closed_under s (c ∷ cs) = subset (dependencies c) s && closed_under s cs

abbrev pub is_closed : List ForensicCapability → Bool
is_closed s = closed_under s s

unfoldable pub validate_media : MediaType → PreprocessingRequirements → Result (Unit {0})
validate_media media r = guard (subset r.forensic (allowed_for media)) value_error

unfoldable pub any_spectrogram : List PreprocessingRequirements → Bool
any_spectrogram [] = false
any_spectrogram (r ∷ rs) = r.audio_spectrogram || any_spectrogram rs

unfoldable pub any_track : List PreprocessingRequirements → Bool
any_track [] = false
any_track (r ∷ rs) = r.video_audio_track || any_track rs

unfoldable pub all_forensic : List PreprocessingRequirements → List ForensicCapability
all_forensic [] = []
all_forensic (r ∷ rs) = r.forensic ++ all_forensic rs

unfoldable pub aggregate : List PreprocessingRequirements → PreprocessingRequirements
aggregate rs = declare (any_spectrogram rs) (any_track rs) (all_forensic rs)
