-- ===== src/Analysis/Registry/Plans.antt =====
-- What a constructed `AnalyzerRegistry` (fakedetector/analyzers/_registry.py) promises of its plans.
use fakedetector.Prelude.{
  String, Bool, true, ◌&&◌, not, Option, none, some, List, [], ◌∷◌, ◌++◌, ◌≡◌, refl, sym, subst,
  arith, ok, err, analyzer_configuration, is_none, guard, bind-ok, then-ok, guard-ok, ok-injective,
  All, All-++, Bool-cases, inl, inr, str_eq, eq_iff,
}
use fakedetector.Domain.{MediaType, image, audio, video}
use fakedetector.Preprocessing.Requirements.{
  PreprocessingRequirements, allowed_for, subset, aggregate, all_forensic, any_spectrogram,
  any_track,
}
use fakedetector.Preprocessing.Requirements.Capabilities.{ForensicCapability}
use fakedetector.Preprocessing.Requirements.Routes.{validate-declare}
use fakedetector.Analysis.Registry.{
  AnalyzerRegistration, supports, all_validated, is_valid_registration, find_registration,
  register_all, all_different, activate, plan_for, AnalyzersConfig, AnalyzerRegistry,
  build_registry, active_plan, enabled_for, plan_ids, active_analyzer_ids, demands,
  preprocessing_requirements,
}

abbrev Valid : AnalyzerRegistration → Type 0
Valid g = is_valid_registration g ≡ true

find-All :
    (P : AnalyzerRegistration → Type 0) (id : String) (gs : List AnalyzerRegistration)
    {g : AnalyzerRegistration}
    → All P gs
    → find_registration id gs ≡ some g
    → P g × (g.analyzer_id ≡ id)
unfolding find_registration
find-All P id [] h e = cc
find-All P id (x ∷ gs) {g} h e = elim (Bool-cases (str_eq x.analyzer_id id)) [
  | inl t ↦
      let same : x ≡ g = cc (t, e) in
      subst (λ y. P y × (y.analyzer_id ≡ id)) same (h.0, (eq_iff x.analyzer_id id).0 t)
  | inr f ↦ find-All P id gs h.1 (rw f at e)
]

refused_result : {r : List AnalyzerRegistration} → err analyzer_configuration ≡ ok r → ⊥
refused_result e = cc

register_all-Valid :
    (by_id gs : List AnalyzerRegistration) {r : List AnalyzerRegistration}
    → All Valid by_id
    → register_all by_id gs ≡ ok r
    → All Valid r
unfolding register_all
register_all-Valid by_id [] h e = subst (All Valid) (sym (ok-injective e)) h
register_all-Valid by_id (g ∷ gs) h e =
    elim (Bool-cases (is_valid_registration g && is_none (find_registration g.analyzer_id by_id))) [
      | inl new ↦
          let valid : Valid g = ground arith in
          register_all-Valid (by_id ++ g ∷ []) gs (All-++ Valid by_id (g ∷ []) h (valid, tt))
            (rw new at e)
      | inr refused ↦ absurd (refused_result (rw refused at e))
    ]

-- each of them supports the media type
unfoldable pub all_support : MediaType → List AnalyzerRegistration → Bool
all_support m [] = true
all_support m (g ∷ gs) = supports g.supported_media_types m && all_support m gs

found_ok :
    {A : Type 0} (o : Option A) {a : A}
    → elim o [ none ↦ err analyzer_configuration | some b ↦ ok b ] ≡ ok a
    → o ≡ some a
found_ok none e = cc
found_ok (some b) e = cc

activate_inv :
    (m : MediaType) (by_id : List AnalyzerRegistration) (ids : List String)
    {plan : List AnalyzerRegistration}
    → All Valid by_id
    → activate m by_id ids ≡ ok plan
    → (plan_ids plan ≡ ids) × (all_support m plan ≡ true) × All Valid plan
unfolding activate plan_ids all_support
activate_inv m by_id [] {plan} h e =
    subst (λ p. (plan_ids p ≡ []) × (all_support m p ≡ true) × All Valid p) (sym (ok-injective e))
      (refl, refl, tt)
activate_inv m by_id (id ∷ ids) {plan} h e =
    let (g, f, e) =
      bind-ok
        (elim (find_registration id by_id) [ none ↦ err analyzer_configuration | some g ↦ ok g ]) _
        e in
    let (supported, e) =
      then-ok (guard (supports g.supported_media_types m) analyzer_configuration) _ e in
    let (rest, more, e) = bind-ok (activate m by_id ids) _ e in
    let (valid, named) = find-All Valid id by_id h (found_ok (find_registration id by_id) f) in
    let (same_ids, all_in, all_valid) = activate_inv m by_id ids h more in
    let one_more = guard-ok _ _ supported in
    subst (λ p. (plan_ids p ≡ id ∷ ids) × (all_support m p ≡ true) × All Valid p)
      (sym (ok-injective e))
      (cc (named, same_ids), ground (arith, one_more, all_in), (valid, all_valid))

-- A plan that was built for a media type, and the list that it was built from.
record IsPlanned (m : MediaType) (enabled : List String) (plan : List AnalyzerRegistration)
    : Type 0 where
  named : plan_ids plan ≡ enabled
  different : all_different enabled ≡ true
  supporting : all_support m plan ≡ true
  valid : All Valid plan

plan_for-IsPlanned :
    (m : MediaType) (by_id : List AnalyzerRegistration) (enabled : List String)
    {plan : List AnalyzerRegistration}
    → All Valid by_id
    → plan_for m by_id enabled ≡ ok plan
    → IsPlanned m enabled plan
unfolding plan_for
plan_for-IsPlanned m by_id enabled h e =
    let (different, e) = then-ok (guard (all_different enabled) analyzer_configuration) _ e in
    let (same_ids, all_in, all_valid) = activate_inv m by_id enabled h e in
    record {
      named = same_ids;
      different = guard-ok _ _ different;
      supporting = all_in;
      valid = all_valid;
    }

by_media :
    (c : AnalyzersConfig) (r : AnalyzerRegistry) (m : MediaType)
    → IsPlanned image c.image_enabled r.image_plan
    → IsPlanned audio c.audio_enabled r.audio_plan
    → IsPlanned video c.video_enabled r.video_plan
    → IsPlanned m (enabled_for m c) (active_plan m r)
unfolding enabled_for
by_media c r image i a v = i
by_media c r audio i a v = a
by_media c r video i a v = v

build-IsPlanned :
    (c : AnalyzersConfig) (gs : List AnalyzerRegistration) {r : AnalyzerRegistry} (m : MediaType)
    → build_registry c gs ≡ ok r
    → IsPlanned m (enabled_for m c) (active_plan m r)
unfolding build_registry enabled_for
build-IsPlanned c gs {r} m e =
    let (_, e) = then-ok (guard _ analyzer_configuration) _ e in
    let (by_id, filled, e) = bind-ok (register_all [] gs) _ e in
    let (_, e) = then-ok (guard (not c.refused_settings) analyzer_configuration) _ e in
    let (images, i, e) = bind-ok (plan_for image by_id c.image_enabled) _ e in
    let (audios, a, e) = bind-ok (plan_for audio by_id c.audio_enabled) _ e in
    let (videos, v, e) = bind-ok (plan_for video by_id c.video_enabled) _ e in
    let valid = register_all-Valid [] gs tt filled in
    subst (λ r. IsPlanned m (enabled_for m c) (active_plan m r)) (sym (ok-injective e))
      (by_media c _ m (plan_for-IsPlanned image by_id c.image_enabled valid i)
        (plan_for-IsPlanned audio by_id c.audio_enabled valid a)
        (plan_for-IsPlanned video by_id c.video_enabled valid v))

-- A registry that was constructed has, for each media type, the configured analyzers in the
-- configured order, each once, and each of them supports the media type.
pub plan_as_configured :
    (config : AnalyzersConfig) (registrations : List AnalyzerRegistration) {r : AnalyzerRegistry}
    (m : MediaType)
    → build_registry config registrations ≡ ok r
    → (active_analyzer_ids m r ≡ enabled_for m config)
      × (all_different (active_analyzer_ids m r) ≡ true)
      × (all_support m (active_plan m r) ≡ true)
plan_as_configured config registrations m e =
    let h = build-IsPlanned config registrations m e in
    (h.named, subst (λ ids. all_different ids ≡ true) (sym h.named) h.different, h.supporting)

subset-append :
    (xs ys s : List ForensicCapability) → subset (xs ++ ys) s ≡ (subset xs s && subset ys s)
unfolding subset
subset-append [] ys s = refl
subset-append (x ∷ xs) ys s = ground (arith, subset-append xs ys s)

validated-supports :
    (r : PreprocessingRequirements) (ms : List MediaType) (m : MediaType)
    → all_validated r ms ≡ true
    → supports ms m ≡ true
    → subset r.forensic (allowed_for m) ≡ true
unfolding all_validated supports
validated-supports r [] m h k = cc
validated-supports r (image ∷ ms) image h k = ground arith
validated-supports r (audio ∷ ms) audio h k = ground arith
validated-supports r (video ∷ ms) video h k = ground arith
validated-supports r (image ∷ ms) audio h k = validated-supports r ms audio (ground arith) k
validated-supports r (image ∷ ms) video h k = validated-supports r ms video (ground arith) k
validated-supports r (audio ∷ ms) image h k = validated-supports r ms image (ground arith) k
validated-supports r (audio ∷ ms) video h k = validated-supports r ms video (ground arith) k
validated-supports r (video ∷ ms) image h k = validated-supports r ms image (ground arith) k
validated-supports r (video ∷ ms) audio h k = validated-supports r ms audio (ground arith) k

demands_allowed :
    (m : MediaType) (plan : List AnalyzerRegistration)
    → all_support m plan ≡ true
    → All Valid plan
    → subset (all_forensic (demands plan)) (allowed_for m) ≡ true
unfolding all_support demands all_forensic subset is_valid_registration
demands_allowed m [] h v = refl
demands_allowed m (g ∷ plan) h v =
    let r = g.preprocessing_requirements in
    let validated : all_validated r g.supported_media_types ≡ true = ground (arith, v.0) in
    let head = validated-supports r g.supported_media_types m validated (ground arith) in
    let rest = demands_allowed m plan (ground arith) v.1 in
    rw (subset-append r.forensic (all_forensic (demands plan)) (allowed_for m), head, rest) refl

-- In a registry that was constructed the demands of a plan fit its media type, so
-- `preprocessing_requirements` returns their aggregate and never raises.
pub preprocessing_requirements_succeeds :
    (config : AnalyzersConfig) (registrations : List AnalyzerRegistration) {r : AnalyzerRegistry}
    (m : MediaType)
    → build_registry config registrations ≡ ok r
    → preprocessing_requirements m r ≡ ok (aggregate (demands (active_plan m r)))
unfolding preprocessing_requirements aggregate
preprocessing_requirements_succeeds config registrations {r} m e =
    let h = build-IsPlanned config registrations m e in
    let ds = demands (active_plan m r) in
    let fits = demands_allowed m (active_plan m r) h.supporting h.valid in
    rw (validate-declare m (any_spectrogram ds) (any_track ds) (all_forensic ds), fits) refl
