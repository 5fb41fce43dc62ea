-- ===== src/Preprocessing/Jpeg/Allocation.antt =====
-- That a preflight of a JPEG header (fakedetector/preprocessing/_models.py) counts output
-- coefficients within the padded ones.
use fakedetector.Prelude.{
  ℕ, ◌+◌, ◌-◌, ◌*◌, ◌/◌, ◌≤◌, ◌<◌, true, List, [], ◌∷◌, ◌≡◌, refl, sym, arith, subst, ◌∙◌, Result,
  ok, err, bind-ok, then-ok, ◌>>=◌, ap, ok-injective, length,
}
use native.Mathlib.Nat.{
  div-lt_iff_lt-mul, mul-le-mul, mul-le-mul_left, mul_assoc, mul_comm, lt-div-mul-add, add-mul,
}
use fakedetector.Preprocessing.Sizes.{
  checked_product, check_product, product, checked_product-product,
}
use fakedetector.Preprocessing.Policy.{ForensicResourcePolicy}
use fakedetector.Preprocessing.Jpeg.{
  JpegComponent, JpegHeader, JpegAllocation, blocks, block_shapes, count_coefficients,
  blocks_per_mcu, max_index, max_horizontal, max_vertical, allocate, preflight, bounded, is_header,
  all_sampled,
}

-- ceil(size * s / d) ≤ s * ceil(size / d)
ceiling_bound : (size s d : ℕ) → 1 ≤ d → (size * s + d - 1) / d ≤ s * ((size * 1 + d - 1) / d)
ceiling_bound size s d h =
    let q = (size * 1 + d - 1) / d in
    let covers : size * 1 + d - 1 < q * d + d = lt-div-mul-add h in
    let whole : size ≤ q * d = omega (arith, h, covers) in
    let times : s * size ≤ s * (q * d) = mul-le-mul_left s whole in
    let spread : (s * q + 1) * d ≡ s * q * d + 1 * d = add-mul (s * q) 1 d in
    let grouped : s * q * d ≡ s * (q * d) = mul_assoc s q d in
    let turned : size * s ≡ s * size = mul_comm size s in
    let over : size * s + d - 1 < (s * q + 1) * d =
      omega (arith, h, times, spread, grouped, turned) in
    let below = div-lt_iff_lt-mul h in
    let strict : (size * s + d - 1) / d < s * q + 1 = below.1 over in omega (arith, strict)

-- The blocks of a component are within those of its sampling in each MCU.
rearranged : (v t s w : ℕ) → (v * t) * (s * w) ≡ (w * t) * (s * v)
rearranged v t s w = omega arith

scaled : (a b : ℕ) → a * (b * (64 * 1)) ≡ 64 * (a * b)
scaled a b = omega arith

scaled_right : (a b : ℕ) → a * 64 * b ≡ 64 * (a * b)
scaled_right a b = omega arith

component_bound :
    (width height max_h max_v : ℕ) (c : JpegComponent)
    → 1 ≤ max_h
    → 1 ≤ max_v
    → product (
        blocks height c.vertical_sampling max_v
        ∷ blocks width c.horizontal_sampling max_h
        ∷ 64
        ∷ [])
      ≤ blocks width 1 max_h
        * blocks height 1 max_v
        * 64
        * (c.horizontal_sampling * c.vertical_sampling)
unfolding product
component_bound width height max_h max_v c h k =
    let v = c.vertical_sampling in
    let s = c.horizontal_sampling in
    let rows = blocks height v max_v in
    let cols = blocks width s max_h in
    let tall = blocks height 1 max_v in
    let wide = blocks width 1 max_h in
    let r : rows ≤ v * tall = ceiling_bound height v (8 * max_v) (omega (arith, k)) in
    let t : cols ≤ s * wide = ceiling_bound width s (8 * max_h) (omega (arith, h)) in
    let both : rows * cols ≤ (v * tall) * (s * wide) = mul-le-mul r t in
    let same : (v * tall) * (s * wide) ≡ (wide * tall) * (s * v) = rearranged v tall s wide in
    let left : rows * (cols * (64 * 1)) ≡ 64 * (rows * cols) = scaled rows cols in
    let right : wide * tall * 64 * (s * v) ≡ 64 * ((wide * tall) * (s * v)) =
      scaled_right (wide * tall) (s * v) in
    omega (arith, both, same, left, right)

-- a checked product that returns is the product, within its limit
product_of :
    (limit : ℕ) (values : List ℕ) {n : ℕ}
    → 1 ≤ limit
    → checked_product limit values ≡ ok n
    → (n ≡ product values) × (n ≤ limit)
product_of limit values h e =
    let same = checked_product-product limit values h in
    (ground (arith, e, same), ground (arith, e, same))

index_positive : 1 ≤ max_index
index_positive = omega arith

added :
    (one rest n per a b : ℕ) → n ≡ one + rest → one ≤ per * a → rest ≤ per * b → n ≤ per * (a + b)
added one rest n per a b e h k = omega (arith, e, h, k)

count_bound :
    (width height max_h max_v : ℕ) (cs : List JpegComponent) {n : ℕ}
    → 1 ≤ max_h
    → 1 ≤ max_v
    → count_coefficients (block_shapes width height max_h max_v cs) ≡ ok n
    → n ≤ blocks width 1 max_h * blocks height 1 max_v * 64 * blocks_per_mcu cs
unfolding count_coefficients block_shapes blocks_per_mcu
count_bound width height max_h max_v [] h k e = omega (arith, ok-injective e)
count_bound width height max_h max_v (c ∷ cs) h k e =
    let rows = blocks height c.vertical_sampling max_v in
    let cols = blocks width c.horizontal_sampling max_h in
    let (one, first, e) = bind-ok (checked_product max_index (rows ∷ cols ∷ 64 ∷ [])) _ e in
    let (rest, others, e) =
      bind-ok (count_coefficients (block_shapes width height max_h max_v cs)) _ e in
    let (exact, _) = product_of max_index (rows ∷ cols ∷ 64 ∷ []) index_positive first in
    let here = component_bound width height max_h max_v c h k in
    let there = count_bound width height max_h max_v cs h k others in
    let sum = ok-injective e in
    let per = blocks width 1 max_h * blocks height 1 max_v * 64 in
    let below : one ≤ per * (c.horizontal_sampling * c.vertical_sampling) =
      subst (λ n. n ≤ per * (c.horizontal_sampling * c.vertical_sampling)) (sym exact) here in
    added one rest _ per (c.horizontal_sampling * c.vertical_sampling) (blocks_per_mcu cs) sum below
      there

sampled_max :
    (cs : List JpegComponent)
    → 1 ≤ length cs
    → all_sampled cs ≡ true
    → (1 ≤ max_horizontal cs) × (1 ≤ max_vertical cs)
unfolding all_sampled max_horizontal max_vertical
sampled_max [] h e = absurd (omega (arith, h))
sampled_max (c ∷ cs) h e = (ground arith, ground arith)

header_max :
    (h : JpegHeader)
    → is_header h ≡ true
    → (1 ≤ max_horizontal h.components) × (1 ≤ max_vertical h.components)
unfolding is_header
header_max h e = sampled_max h.components (ground arith) (ground arith)

bounded_ok :
    (a : JpegAllocation)
    → count_coefficients a.shapes ≡ ok a.output_coefficients
    → a.output_coefficients ≤ a.native_coefficients
    → a.native_coefficients ≤ 4194304
    → bounded a ≡ ok a
unfolding bounded
bounded_ok a e h k = rw e (ground (arith, h, k))

padded :
    (wide tall bpm : ℕ)
    → product (product (wide ∷ tall ∷ []) ∷ 64 ∷ bpm ∷ []) ≡ wide * tall * 64 * bpm
unfolding product
padded wide tall bpm = omega arith

allocated :
    (source_bytes : ℕ) (policy : ForensicResourcePolicy) (h : JpegHeader) {a : JpegAllocation}
    → is_header h ≡ true
    → 1 ≤ policy.jpeg_coefficients
    → allocate source_bytes policy h ≡ ok a
    → (count_coefficients a.shapes ≡ ok a.output_coefficients)
      × (a.output_coefficients ≤ a.native_coefficients)
      × (a.native_coefficients ≤ policy.jpeg_coefficients)
unfolding allocate
allocated source_bytes policy h {a} valid low e =
    let cs = h.components in
    let max_h = max_horizontal cs in
    let max_v = max_vertical cs in
    let (h1, v1) = header_max h valid in
    let (_, e) = then-ok (check_product policy.jpeg_input_bytes (source_bytes ∷ [])) _ e in
    let (count, counted, e) =
      bind-ok (count_coefficients (block_shapes h.width h.height max_h max_v cs)) _ e in
    let (mcus, units, e) =
      bind-ok (checked_product max_index (blocks h.width 1 max_h ∷ blocks h.height 1 max_v ∷ [])) _
        e in
    let (native, slots, e) =
      bind-ok (checked_product policy.jpeg_coefficients (mcus ∷ 64 ∷ blocks_per_mcu cs ∷ [])) _ e in
    let (mcus_exact, _) = product_of max_index _ index_positive units in
    let (native_exact, ceiling) = product_of policy.jpeg_coefficients _ low slots in
    let below = count_bound h.width h.height max_h max_v cs h1 v1 counted in
    let whole = padded (blocks h.width 1 max_h) (blocks h.height 1 max_v) (blocks_per_mcu cs) in
    let under : count ≤ native =
      subst (λ n. count ≤ n)
        (sym
          (native_exact ∙ ap (λ m. product (m ∷ 64 ∷ blocks_per_mcu cs ∷ [])) mcus_exact ∙ whole))
        below in
    subst
      (λ a.
        (count_coefficients a.shapes ≡ ok a.output_coefficients)
        × (a.output_coefficients ≤ a.native_coefficients)
        × (a.native_coefficients ≤ policy.jpeg_coefficients))
      (sym (ok-injective e)) (counted, under, ceiling)

-- The allocation that a preflight computes for a header that was accepted passes its own validator:
-- the output coefficients of the components are within the padded ones of the MCUs, and these within
-- the ceiling of the policy. So the preflight returns whenever its products are within their limits.
pub preflight-allocate :
    (source_bytes : ℕ) (policy : ForensicResourcePolicy) (h : JpegHeader)
    → is_header h ≡ true
    → 1 ≤ policy.jpeg_coefficients
    → policy.jpeg_coefficients ≤ 4194304
    → preflight source_bytes policy h ≡ allocate source_bytes policy h
unfolding preflight
preflight-allocate source_bytes policy h valid low high = go (allocate source_bytes policy h) refl
  where
    go :
        (made : Result JpegAllocation)
        → allocate source_bytes policy h ≡ made
        → (made >>= bounded) ≡ made
    go (err x) e = refl
    go (ok a) e =
        let (counted, under, ceiling) = allocated source_bytes policy h valid low e in
        bounded_ok a counted under (omega (arith, ceiling, high))
