-- ===== src/Preprocessing/Sizes.antt =====
-- `_checked_product` of fakedetector/preprocessing/_requirements.py. A value that is no positive
-- integer is 0 here.
use fakedetector.Prelude.{
  ℕ, ◌*◌, ◌/◌, ◌≤◌, Bool, true, ◌&&◌, ◌||◌, not, List, [], ◌∷◌, ◌≡◌, refl, arith, Result, ok, err,
  value_error, ltb, leb, ◌==◌, ◌>>=◌, if◌then◌else◌, sym, ◌∙◌, Bool-cases, inl, inr,
}
use mathlib.Core.Logic.{◌↔◌}
use native.Mathlib.Nat.{
  one-le-mul, le-div_iff_mul-le, le-mul_of_pos_right, mul_comm, mul_assoc, one-mul,
}

unfoldable pub multiply : ℕ → ℕ → List ℕ → Result ℕ
multiply limit result [] = ok result
multiply limit result (value ∷ values) =
    if (value == 0) || ltb (limit / result) value
    then err value_error
    else multiply limit (result * value) values

unfoldable pub checked_product : ℕ → List ℕ → Result ℕ
checked_product limit values = multiply limit 1 values

-- a call of it for its check alone
unfoldable pub check_product : ℕ → List ℕ → Result (Unit {0})
check_product limit values = do result ← checked_product limit values; ok tt

-- the product as a number without a bound
unfoldable pub product : List ℕ → ℕ
product [] = 1
product (value ∷ values) = value * product values

unfoldable pub all_positive : List ℕ → Bool
all_positive [] = true
all_positive (value ∷ values) = not (value == 0) && all_positive values

product_positive : (values : List ℕ) → all_positive values ≡ true → 1 ≤ product values
unfolding all_positive product
product_positive [] h = omega arith
product_positive (value ∷ values) h =
    one-le-mul (ground arith) (product_positive values (ground arith))

fits_quotient :
    (limit result value : ℕ) → 1 ≤ result → ltb (limit / result) value ≡ ltb limit (result * value)
fits_quotient limit result value h =
    let swap : value * result ≡ result * value = mul_comm value result in
    let fits : (value ≤ limit / result) ↔ (value * result ≤ limit) = le-div_iff_mul-le h in
    elim (Bool-cases (ltb limit (result * value))) [
      | inl big ↦ elim (Bool-cases (ltb (limit / result) value)) [
        | inl over ↦ over ∙ sym big
        | inr under ↦
            let small : value * result ≤ limit = fits.0 (ground arith) in
            absurd (ground (arith, small, swap, big))
      ]
      | inr small ↦
          let inside : value * result ≤ limit = ground (arith, swap, small) in
          let below = fits.1 inside in ground (arith, below, small)
    ]

-- the loop from a partial product on
multiply-product :
    (limit result : ℕ) (values : List ℕ)
    → 1 ≤ result
    → result ≤ limit
    → multiply limit result values ≡ (
        if all_positive values && leb (result * product values) limit
        then ok (result * product values)
        else err value_error)
unfolding multiply all_positive product
multiply-product limit result [] h k =
    let one : result * 1 ≡ result = omega arith in rw one (ground arith)
multiply-product limit result (value ∷ values) h k = elim (Bool-cases (value == 0)) [
  | inl none ↦ rw none refl
  | inr some_left ↦ elim (Bool-cases (ltb limit (result * value))) [
    | inl big ↦
        let over = over_stays limit result value values big in
        rw (some_left, fits_quotient limit result value h, big) over
    | inr small ↦
        let next : 1 ≤ result * value = one-le-mul h (ground arith) in
        let rest = multiply-product limit (result * value) values next (ground arith) in
        rw (some_left, fits_quotient limit result value h, small)
          (rw (mul_assoc result value (product values)) at rest)
  ]
]
  where
    over_stays :
        (limit result value : ℕ) (values : List ℕ)
        → ltb limit (result * value) ≡ true
        → err value_error ≡ (
            if all_positive values && leb (result * (value * product values)) limit
            then ok (result * (value * product values))
            else err value_error)
    over_stays limit result value values big = elim (Bool-cases (all_positive values)) [
      | inl positive ↦
          let grows : result * value ≤ result * value * product values =
            le-mul_of_pos_right (result * value) (product_positive values positive) in
          let same = mul_assoc result value (product values) in
          rw positive (ground (arith, grows, same, big))
      | inr flat ↦ rw flat refl
    ]

-- For a limit of at least 1, the checked product is the product of the values when they are all positive and it is within the
-- limit, and a ValueError otherwise: the test by division refuses exactly what would pass the limit.
pub checked_product-product :
    (limit : ℕ) (values : List ℕ)
    → 1 ≤ limit
    → checked_product limit values ≡ (
        if all_positive values && leb (product values) limit
        then ok (product values)
        else err value_error)
unfolding checked_product
checked_product-product limit values h =
    let whole = multiply-product limit 1 values (omega arith) h in
    rw (one-mul (product values)) at whole
