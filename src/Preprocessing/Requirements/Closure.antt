-- ===== src/Preprocessing/Requirements/Closure.antt =====
-- What the loop over the dependencies in fakedetector/preprocessing/_requirements.py computes.
use fakedetector.Prelude.{
  ℕ, suc, zero, ◌+◌, ◌≤◌, Bool, true, false, some, List, [], ◌∷◌, ◌≡◌, refl, arith, length,
  Bool-cases, inl, inr,
}
use fakedetector.Preprocessing.Requirements.Capabilities.{
  ForensicCapability, all_capabilities, dependencies, has, same_capability, original_image,
  jpeg_structure, jpeg_coefficients, image_coordinates, residual_raster, audio_precision,
  audio_samples, audio_spectral, stream_timing, timing_records, dense_video, av_timeline, ordinal,
}
use fakedetector.Preprocessing.Requirements.{visit, expand}

abbrev pub one_missing : Bool → ℕ
one_missing true = 0
one_missing false = 1

-- How many capabilities of a list are not in a set.
unfoldable pub missing : List ForensicCapability → List ForensicCapability → ℕ
missing e [] = 0
missing e (c ∷ cs) = one_missing (has e c) + missing e cs

pub missing-bound : (e cs : List ForensicCapability) → missing e cs ≤ length cs
unfolding missing
missing-bound e [] = omega arith
missing-bound e (c ∷ cs) = ground (arith, missing-bound e cs)

missing-add :
    (c : ForensicCapability) (e : List ForensicCapability)
    → has e c ≡ false
    → suc (missing (c ∷ e) all_capabilities) ≡ missing e all_capabilities
unfolding missing has same_capability ordinal
missing-add original_image e h = rw h (omega arith)
missing-add jpeg_structure e h = rw h (omega arith)
missing-add jpeg_coefficients e h = rw h (omega arith)
missing-add image_coordinates e h = rw h (omega arith)
missing-add residual_raster e h = rw h (omega arith)
missing-add audio_precision e h = rw h (omega arith)
missing-add audio_samples e h = rw h (omega arith)
missing-add audio_spectral e h = rw h (omega arith)
missing-add stream_timing e h = rw h (omega arith)
missing-add timing_records e h = rw h (omega arith)
missing-add dense_video e h = rw h (omega arith)
missing-add av_timeline e h = rw h (omega arith)

-- `visit` trades each capability that it adds for one that was missing.
visit-measure :
    (deps e p : List ForensicCapability)
    → missing (visit deps e p).0 all_capabilities + length (visit deps e p).1
      ≡ missing e all_capabilities + length p
unfolding visit
visit-measure [] e p = refl
visit-measure (d ∷ deps) e p = elim (Bool-cases (has e d)) [
  | inl t ↦ rw t (visit-measure deps e p)
  | inr f ↦ rw f (omega (arith, visit-measure deps (d ∷ e) (d ∷ p), missing-add d e f))
]

-- The loop ends within as many rounds as there are pending and missing capabilities.
pub expand-ends :
    (fuel : ℕ) (e p : List ForensicCapability)
    → missing e all_capabilities + length p ≤ fuel
    → (s : List ForensicCapability) × (expand fuel e p ≡ some s)
unfolding expand
expand-ends fuel e [] h = (e, refl)
expand-ends zero e (c ∷ p) h = absurd (omega (arith, h))
expand-ends (suc fuel) e (c ∷ p) h =
    let next = visit (dependencies c) e p in
    expand-ends fuel next.0 next.1 (omega (arith, h, visit-measure (dependencies c) e p))
