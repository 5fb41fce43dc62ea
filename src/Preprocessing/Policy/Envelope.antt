-- ===== src/Preprocessing/Policy/Envelope.antt =====
-- What the checks of `ForensicResourcePolicy` (fakedetector/preprocessing/_requirements.py) bound.
use fakedetector.Prelude.{
  ℕ, ◌*◌, ◌≤◌, true, List, [], ◌∷◌, ◌≡◌, arith, ok, value_error, guard, ◌>>◌, then-ok, guard-ok,
  All, subst,
}
use native.Mathlib.Nat.{mul-le-mul_left, mul-one}
use fakedetector.Preprocessing.Sizes.{check_product, product, all_positive, checked_product-product}
use fakedetector.Preprocessing.Policy.{
  ForensicResourcePolicy, Field, fields, all_in_range, coherent_limits, accept_policy, check_audio,
  check_spectral, smaller, dense_factors,
}

checked_within :
    (limit : ℕ) (values : List ℕ)
    → 1 ≤ limit
    → check_product limit values ≡ ok tt
    → (all_positive values ≡ true) × (product values ≤ limit)
unfolding check_product
checked_within limit values h e =
    let same = checked_product-product limit values h in
    (ground (arith, e, same), ground (arith, e, same))

one_within :
    (limit value : ℕ)
    → 1 ≤ limit
    → check_product limit (value ∷ []) ≡ ok tt
    → (1 ≤ value) × (value ≤ limit)
unfolding product all_positive
one_within limit value h e =
    let (positive, below) = checked_within limit (value ∷ []) h e in
    let same = mul-one value in (ground arith, ground (arith, below, same))

abbrev InRange : Field → Type 0
InRange f = (f.least ≤ f.value) × (f.value ≤ f.greatest)

ranges : (fs : List Field) → all_in_range fs ≡ true → All InRange fs
unfolding all_in_range
ranges [] h = tt
ranges (f ∷ fs) h = ((ground arith, ground arith), ranges fs (ground arith))

pub accepted-ranges :
    (p : ForensicResourcePolicy) {q : ForensicResourcePolicy}
    → accept_policy p ≡ ok q
    → All InRange (fields p)
unfolding accept_policy
accepted-ranges p e = ranges (fields p) (
    guard-ok _ _
      (then-ok (guard (all_in_range (fields p)) value_error) (do coherent_limits p; ok p) e).0)

-- Audio that an accepted policy lets pass is within the fixed envelope: at most three windows, of at
-- most 8 channels, 2^20 samples over all channels and 10 seconds, at a rate of at most 192 kHz.
pub check_audio_bounds :
    (p : ForensicResourcePolicy) {q : ForensicResourcePolicy} (frames channels rate windows : ℕ)
    → accept_policy p ≡ ok q
    → check_audio p frames channels rate windows ≡ ok tt
    → (1 ≤ windows)
      × (windows ≤ 3)
      × (1 ≤ channels)
      × (channels ≤ 8)
      × (frames * channels ≤ 1048576)
      × (frames ≤ rate * 10)
      × (rate ≤ 192000)
unfolding check_audio product
check_audio_bounds p frames channels rate windows a e =
    let r = accepted-ranges p a in
    let (w, e) = then-ok (check_product p.audio_windows (windows ∷ [])) _ e in
    let (c, e) = then-ok (check_product p.audio_channels (channels ∷ [])) _ e in
    let (k, e) = then-ok (check_product p.audio_rate (rate ∷ [])) _ e in
    let (s, e) = then-ok (check_product p.audio_window_samples (frames ∷ channels ∷ [])) _ e in
    let windows_in = one_within p.audio_windows windows (r.1.1.1.1.1.1.1.1.1.0).0 w in
    let channels_in = one_within p.audio_channels channels (r.1.1.1.1.1.1.1.1.1.1.1.1.1.0).0 c in
    let rate_in = one_within p.audio_rate rate (r.1.1.1.1.1.1.1.1.1.1.1.1.0).0 k in
    let (_, samples) =
      checked_within p.audio_window_samples (frames ∷ channels ∷ []) (r.1.1.1.1.1.1.1.1.1.1.1.0).0
        s in
    let one = mul-one channels in
    let time : frames ≤ rate * p.audio_window_seconds = ground (arith, guard-ok _ _ e) in
    let longest : rate * p.audio_window_seconds ≤ rate * 10 =
      mul-le-mul_left rate (r.1.1.1.1.1.1.1.1.1.1.0).1 in
    (
      windows_in.0,
      omega (arith, windows_in.1, (r.1.1.1.1.1.1.1.1.1.0).1),
      channels_in.0,
      omega (arith, channels_in.1, (r.1.1.1.1.1.1.1.1.1.1.1.1.1.0).1),
      subst (λ x. frames * x ≤ 1048576) one (omega (arith, samples, (r.1.1.1.1.1.1.1.1.1.1.1.0).1)),
      omega (arith, time, longest),
      omega (arith, rate_in.1, (r.1.1.1.1.1.1.1.1.1.1.1.1.0).1),
    )

-- The transform that an accepted policy lets pass has at least 4 and at most 4096 points, a hop of
-- a quarter of them at least and of all of them at most, at most 8192 frames, and batches of at most
-- 32 of its frames.
pub check_spectral_bounds :
    (p : ForensicResourcePolicy) {q : ForensicResourcePolicy} (n_fft hop frames batch : ℕ)
    → accept_policy p ≡ ok q
    → check_spectral p n_fft hop frames batch ≡ ok tt
    → (4 ≤ n_fft)
      × (n_fft ≤ 4096)
      × (hop ≤ n_fft)
      × (n_fft ≤ hop * 4)
      × (1 ≤ frames)
      × (frames ≤ 8192)
      × (1 ≤ batch)
      × (batch ≤ 32)
      × (batch ≤ frames)
unfolding check_spectral
check_spectral_bounds p n_fft hop frames batch a e =
    let r = accepted-ranges p a in
    let (n, e) = then-ok (check_product p.fft_size (n_fft ∷ [])) _ e in
    let (h, e) = then-ok (check_product n_fft (hop ∷ [])) _ e in
    let (f, e) = then-ok (check_product p.spectral_frames (frames ∷ [])) _ e in
    let (b, e) = then-ok (check_product (smaller frames p.spectral_batch) (batch ∷ [])) _ e in
    let points =
      one_within p.fft_size n_fft (omega (arith, (r.1.1.1.1.1.1.1.1.1.1.1.1.1.1.0).0)) n in
    let hops = one_within n_fft hop points.0 h in
    let frames_in = one_within p.spectral_frames frames (r.1.1.1.1.1.1.1.1.1.1.1.1.1.1.1.0).0 f in
    let least : 1 ≤ smaller frames p.spectral_batch =
      ground (arith, frames_in.0, (r.1.1.1.1.1.1.1.1.1.1.1.1.1.1.1.1.0).0) in
    let batches = one_within (smaller frames p.spectral_batch) batch least b in
    let work = guard-ok _ _ e in
    (
      ground (arith, work),
      omega (arith, points.1, (r.1.1.1.1.1.1.1.1.1.1.1.1.1.1.0).1),
      hops.1,
      ground (arith, work),
      frames_in.0,
      omega (arith, frames_in.1, (r.1.1.1.1.1.1.1.1.1.1.1.1.1.1.1.0).1),
      batches.0,
      ground (arith, batches.1, (r.1.1.1.1.1.1.1.1.1.1.1.1.1.1.1.1.0).1),
      ground (arith, batches.1),
    )

sixty_four_mebibytes : 1 ≤ 67108864
sixty_four_mebibytes = omega arith

-- The dense frames that an accepted policy allows, three bytes to a pixel, take at most 64 MiB.
pub dense_frames_bound :
    (p : ForensicResourcePolicy) {q : ForensicResourcePolicy}
    → accept_policy p ≡ ok q
    → p.dense_windows * (p.dense_frames * (p.dense_width * (p.dense_height * 3))) ≤ 67108864
unfolding accept_policy coherent_limits product
dense_frames_bound p a =
    let (_, e) = then-ok (guard (all_in_range (fields p)) value_error) _ a in
    let (e, _) = then-ok (coherent_limits p) (ok p) e in
    let (_, e) = then-ok (guard _ value_error) _ e in
    let (e, _) = then-ok (check_product 67108864 (dense_factors p)) (ok tt) e in
    let (_, below) = checked_within 67108864 (dense_factors p) sixty_four_mebibytes e in below
