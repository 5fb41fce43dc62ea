-- ===== src/Analysis/Registry.antt =====
-- `AnalyzerRegistry` of fakedetector/analyzers/_registry.py: the plan of each media type, built from
-- the registrations and the configured lists. What a registration's other checks answer (texts,
-- settings, the worker's definition) is a field of it.
pub mod Plans
use fakedetector.Prelude.{
  ℕ, String, Bool, true, false, ◌&&◌, ◌||◌, not, Option, none, some, List, [], ◌∷◌, ◌++◌, Result,
  ok, err, analyzer_configuration, guard, ◌>>=◌, ◌>>◌, contains, str_eq, is_none, if◌then◌else◌,
  map,
}
use fakedetector.Domain.{MediaType, image, audio, video, same_media}
use fakedetector.Preprocessing.Requirements.{
  PreprocessingRequirements, allowed_for, subset, validate_media, aggregate, is_closed,
}

pub record AnalyzerRegistration : Type 0 where
  pub analyzer_id : String
  pub analyzer_version : String
  pub group : String
  pub supported_media_types : List MediaType
  pub preprocessing_requirements : PreprocessingRequirements
  -- the texts, the settings contract and the candidate types are as `_validate_registration` wants,
  -- and the worker's definition says the same
  pub well_formed : Bool

unfoldable pub supports : List MediaType → MediaType → Bool
supports [] m = false
supports (s ∷ ss) m = same_media s m || supports ss m

-- requirements.validate_media of every supported media type
unfoldable pub all_validated : PreprocessingRequirements → List MediaType → Bool
all_validated r [] = true
all_validated r (m ∷ ms) = subset r.forensic (allowed_for m) && all_validated r ms

abbrev is_nonempty : List MediaType → Bool
is_nonempty [] = false
is_nonempty (m ∷ ms) = true

-- _validate_registration, by whether it returns
unfoldable pub is_valid_registration : AnalyzerRegistration → Bool
unfolding supports
is_valid_registration g =
    let r = g.preprocessing_requirements in
    g.well_formed
    && is_nonempty g.supported_media_types
    && (not r.audio_spectrogram || supports g.supported_media_types audio)
    && (not r.video_audio_track || supports g.supported_media_types video)
    && all_validated r g.supported_media_types

unfoldable pub find_registration : String → List AnalyzerRegistration → Option AnalyzerRegistration
find_registration id [] = none
find_registration id (g ∷ gs) = if str_eq g.analyzer_id id then some g else find_registration id gs

-- the loop that fills `by_id`, in the order of the registrations
unfoldable pub register_all :
    List AnalyzerRegistration → List AnalyzerRegistration → Result (List AnalyzerRegistration)
unfolding is_valid_registration find_registration
register_all by_id [] = ok by_id
register_all by_id (g ∷ gs) =
    if is_valid_registration g && is_none (find_registration g.analyzer_id by_id)
    then register_all (by_id ++ g ∷ []) gs
    else err analyzer_configuration

-- len(enabled) == len(set(enabled))
unfoldable pub all_different : List String → Bool
all_different [] = true
all_different (s ∷ ss) = not (contains ss s) && all_different ss

-- the loop over the enabled ids of one media type
unfoldable pub activate :
    MediaType → List AnalyzerRegistration → List String → Result (List AnalyzerRegistration)
unfolding find_registration supports
activate m by_id [] = ok []
activate m by_id (id ∷ ids) = do
  g ← (elim (find_registration id by_id) [ none ↦ err analyzer_configuration | some g ↦ ok g ])
  guard (supports g.supported_media_types m) analyzer_configuration
  rest ← activate m by_id ids
  ok (g ∷ rest)

unfoldable pub plan_for :
    MediaType → List AnalyzerRegistration → List String → Result (List AnalyzerRegistration)
unfolding all_different activate
plan_for m by_id enabled = do
  guard (all_different enabled) analyzer_configuration
  activate m by_id enabled

-- What the registry reads of the configuration; `unknown_settings` says that there are settings of
-- an analyzer that is not registered, or that some settings are refused.
pub record AnalyzersConfig : Type 0 where
  pub image_enabled : List String
  pub audio_enabled : List String
  pub video_enabled : List String
  pub default_continue : Bool
  pub continue_if_analyzer_fails : Bool
  pub refused_settings : Bool

pub record AnalyzerRegistry : Type 0 where
  pub image_plan : List AnalyzerRegistration
  pub audio_plan : List AnalyzerRegistration
  pub video_plan : List AnalyzerRegistration
  pub continue_on_failure : Bool

abbrev both_or_neither : Bool → Bool → Bool
both_or_neither true b = b
both_or_neither false b = not b

unfoldable pub build_registry :
    AnalyzersConfig → List AnalyzerRegistration → Result AnalyzerRegistry
unfolding register_all plan_for
build_registry config registrations = do
  guard (both_or_neither config.default_continue config.continue_if_analyzer_fails)
      analyzer_configuration
  by_id ← register_all [] registrations
  guard (not config.refused_settings) analyzer_configuration
  images ← plan_for image by_id config.image_enabled
  audios ← plan_for audio by_id config.audio_enabled
  videos ← plan_for video by_id config.video_enabled
  ok (record {
    image_plan = images;
    audio_plan = audios;
    video_plan = videos;
    continue_on_failure = config.continue_if_analyzer_fails;
  })

abbrev pub active_plan : MediaType → AnalyzerRegistry → List AnalyzerRegistration
active_plan image r = r.image_plan
active_plan audio r = r.audio_plan
active_plan video r = r.video_plan

unfoldable pub enabled_for : MediaType → AnalyzersConfig → List String
enabled_for image c = c.image_enabled
enabled_for audio c = c.audio_enabled
enabled_for video c = c.video_enabled

unfoldable pub plan_ids : List AnalyzerRegistration → List String
plan_ids [] = []
plan_ids (g ∷ gs) = g.analyzer_id ∷ plan_ids gs

abbrev pub active_analyzer_ids : MediaType → AnalyzerRegistry → List String
active_analyzer_ids m r = plan_ids (active_plan m r)

unfoldable pub demands : List AnalyzerRegistration → List PreprocessingRequirements
demands [] = []
demands (g ∷ gs) = g.preprocessing_requirements ∷ demands gs

unfoldable pub preprocessing_requirements :
    MediaType → AnalyzerRegistry → Result PreprocessingRequirements
unfolding demands
preprocessing_requirements m r =
    let aggregated = aggregate (demands (active_plan m r)) in
    do validate_media m aggregated; ok aggregated
