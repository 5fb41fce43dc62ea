-- ===== src/Preprocessing/Requirements/Routes.antt =====
-- `validate_media` and `aggregate` of fakedetector/preprocessing/_requirements.py, by the demands
-- that were declared.
use fakedetector.Prelude.{
  Bool, true, false, ◌&&◌, ◌||◌, List, [], ◌∷◌, ◌≡◌, refl, sym, ap, ◌∙◌, arith, guard, value_error,
  Bool-cases, inl, inr,
}
use fakedetector.Domain.{MediaType, image, audio, video}
use fakedetector.Preprocessing.Requirements.Capabilities.{
  ForensicCapability, dependencies, has, has-append, image_capabilities, audio_capabilities,
  video_capabilities, same_capability, ordinal,
}
use fakedetector.Preprocessing.Requirements.{
  PreprocessingRequirements, closure, declare, allowed_for, subset, closed_under, is_closed,
  validate_media, aggregate, all_forensic, any_spectrogram, any_track,
}
use fakedetector.Preprocessing.Requirements.Least.{
  closure_closed, closure_least, has-subset, subset_all, closed-has, closed_all,
}

allowed-closed : (m : MediaType) → is_closed (allowed_for m) ≡ true
unfolding image_capabilities audio_capabilities video_capabilities closed_under subset has
    same_capability ordinal dependencies
allowed-closed image = refl
allowed-closed audio = refl
allowed-closed video = refl

subset_trans :
    (r s t : List ForensicCapability) → subset r s ≡ true → subset s t ≡ true → subset r t ≡ true
subset_trans r s t h k = subset_all r t (λ c e. has-subset s t c k (has-subset r s c h e))

closure-subset :
    (demanded t : List ForensicCapability)
    → is_closed t ≡ true
    → subset (closure demanded) t ≡ subset demanded t
closure-subset demanded t closed = elim (Bool-cases (subset demanded t)) [
  | inl inside ↦ closure_least demanded t closed inside ∙ sym inside
  | inr outside ↦ elim (Bool-cases (subset (closure demanded) t)) [
    | inl all_inside ↦
        let (_, kept, _) = closure_closed demanded in
        all_inside ∙ sym (subset_trans demanded (closure demanded) t kept all_inside)
    | inr some_outside ↦ some_outside ∙ sym outside
  ]
]

-- A declaration passes `validate_media` exactly when the demanded capabilities themselves belong to
-- the media type: the dependencies that the constructor adds are never the reason of a refusal.
pub validate-declare :
    (m : MediaType) (spectrogram track : Bool) (demanded : List ForensicCapability)
    → validate_media m (declare spectrogram track demanded)
      ≡ guard (subset demanded (allowed_for m)) value_error
unfolding validate_media declare
validate-declare m spectrogram track demanded =
    ap (λ b. guard b value_error) (closure-subset demanded (allowed_for m) (allowed-closed m))

-- Every declaration holds the dependencies of its capabilities, as the constructor leaves it.
unfoldable pub all_closed : List PreprocessingRequirements → Bool
all_closed [] = true
all_closed (r ∷ rs) = is_closed r.forensic && all_closed rs

-- some declaration passes the test
unfoldable pub some_declare :
    (PreprocessingRequirements → Bool) → List PreprocessingRequirements → Bool
some_declare test [] = false
some_declare test (r ∷ rs) = test r || some_declare test rs

-- some declaration demands the capability
abbrev pub any_demands : List PreprocessingRequirements → ForensicCapability → Bool
any_demands rs c = some_declare (λ r. has r.forensic c) rs

any_spectrogram-declare :
    (rs : List PreprocessingRequirements)
    → any_spectrogram rs ≡ some_declare (λ r. r.audio_spectrogram) rs
unfolding any_spectrogram some_declare
any_spectrogram-declare [] = refl
any_spectrogram-declare (r ∷ rs) = ap (λ b. r.audio_spectrogram || b) (any_spectrogram-declare rs)

any_track-declare :
    (rs : List PreprocessingRequirements)
    → any_track rs ≡ some_declare (λ r. r.video_audio_track) rs
unfolding any_track some_declare
any_track-declare [] = refl
any_track-declare (r ∷ rs) = ap (λ b. r.video_audio_track || b) (any_track-declare rs)

all_forensic-has :
    (rs : List PreprocessingRequirements) (c : ForensicCapability)
    → has (all_forensic rs) c ≡ any_demands rs c
unfolding all_forensic some_declare has
all_forensic-has [] c = refl
all_forensic-has (r ∷ rs) c =
    ground (arith, has-append c r.forensic (all_forensic rs), all_forensic-has rs c)

all_forensic-step :
    (rs : List PreprocessingRequirements) (c d : ForensicCapability)
    → all_closed rs ≡ true
    → any_demands rs c ≡ true
    → has (dependencies c) d ≡ true
    → any_demands rs d ≡ true
unfolding all_closed some_declare
all_forensic-step [] c d h k e = cc
all_forensic-step (r ∷ rs) c d h k e = elim (Bool-cases (has r.forensic c)) [
  | inl here ↦
      let there = closed-has r.forensic r.forensic c d (ground arith) here e in rw there refl
  | inr elsewhere ↦
      let rest = all_forensic-step rs c d (ground arith) (rw elsewhere at k) e in
      rw rest (ground arith)
]

aggregate-forensic :
    (rs : List PreprocessingRequirements) (c : ForensicCapability)
    → all_closed rs ≡ true
    → has (aggregate rs).forensic c ≡ any_demands rs c
unfolding aggregate declare
aggregate-forensic rs c h =
    let s = all_forensic rs in
    let closed : is_closed s ≡ true = closed_all s s (λ c d k e.
      all_forensic-has rs d ∙ all_forensic-step rs c d h (sym (all_forensic-has rs c) ∙ k) e) in
    let (_, kept, _) = closure_closed s in
    let same : subset s s ≡ true = subset_all s s (λ c k. k) in
    let within = closure_least s s closed same in
    same_truth (has (closure s) c) (has s c) (has-subset (closure s) s c within)
      (has-subset s (closure s) c kept)
    ∙ all_forensic-has rs c
  where
    same_truth : (a b : Bool) → (a ≡ true → b ≡ true) → (b ≡ true → a ≡ true) → a ≡ b
    same_truth true b f g = sym (f refl)
    same_truth false true f g = g refl
    same_truth false false f g = refl

-- Aggregating declarations demands what some declaration demands, and nothing else, when each of
-- them is as its constructor left it: the spectrogram, the track of a video, and each capability.
pub aggregate_union :
    (rs : List PreprocessingRequirements)
    → all_closed rs ≡ true
    → ((aggregate rs).audio_spectrogram ≡ some_declare (λ r. r.audio_spectrogram) rs)
      × ((aggregate rs).video_audio_track ≡ some_declare (λ r. r.video_audio_track) rs)
      × ((c : ForensicCapability) → has (aggregate rs).forensic c ≡ any_demands rs c)
unfolding aggregate declare
aggregate_union rs h =
    (any_spectrogram-declare rs, any_track-declare rs, λ c. aggregate-forensic rs c h)
