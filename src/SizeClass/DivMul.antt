-- ===== src/SizeClass/DivMul.antt =====
-- Division by multiplication: `ComputeMulForDiv`, `IsCorrectDivToMul` and `DivBySizeViaMul`.
use sanitizers.Base.{
  ℕ, zero, suc, ◌+◌, ◌-◌, ◌*◌, ◌/◌, ◌%◌, ◌^◌, ◌≤◌, ◌<◌, ◌≡◌, refl, sym, ap, Bool, true, ◌&&◌, arith,
  ltb, leb, every, every-get_or, get_or, ==_refl, u32, u64,
}
use native.Mathlib.Nat.{
  div-add-mod, mod-lt, mul-le-mul_right, mul-le-mul_left, div-le_self, mod-eq_of_lt, lt-div-mul-add,
  div-lt_iff_lt-mul,
}
use native.Mathlib.Decide.{dec_lt}
use sanitizers.Layout.{super_page_size}
use sanitizers.SizeClass.{
  num_size_classes, sc_array, compute_mul_for_div, is_correct_from, is_correct_div_to_mul,
  div_by_size_via_mul, div_mul_shift,
}

-- A multiplier `m` that exceeds 2 ^ 35 / d by `e` in the product divides exactly as long as the
-- error stays below one unit of the shift.
exact :
    (d m e left q r : ℕ)
    → left ≡ d * q + r
    → m * d ≡ 2 ^ 35 + e
    → q * e + r * m < 2 ^ 35
    → left * m / 2 ^ 35 ≡ q
exact d m e left q r split mul small = omega (arith, product)
  where
    product : left * m ≡ q * 2 ^ 35 + (q * e + r * m)
    product = rw split (omega (arith, ap (λ (t : ℕ). q * t) mul))

-- A test on the size alone, from which exact division follows for every value up to a super page.
abbrev pub bounded_error : ℕ → Bool
bounded_error d =
    let m = compute_mul_for_div d 35 in
    let e = m * d - 2 ^ 35 in
    let top = super_page_size / d in
    ltb 0 d
    && ltb m (2 ^ 32)
    && leb (2 ^ 35) (m * d)
    && ltb (top * e) m
    && ltb (top * e + (super_page_size - top * d) * m) (2 ^ 35)

table_bounded : every bounded_error sc_array ≡ true
unfolding compute_mul_for_div
table_bounded = refl

-- What the test says of the size.
record Bounded (d m : ℕ) : Type 0 where
  pos : 0 < d
  mul_small : m < 2 ^ 32
  product : m * d ≡ 2 ^ 35 + (m * d - 2 ^ 35)
  error : super_page_size / d * (m * d - 2 ^ 35) < m
  top :
      super_page_size / d * (m * d - 2 ^ 35) + (super_page_size - super_page_size / d * d) * m
      < 2 ^ 35

bounded_error-Bounded : (d : ℕ) → bounded_error d ≡ true → Bounded d (compute_mul_for_div d 35)
bounded_error-Bounded d h = ground arith

div_mono : (d left : ℕ) → 0 < d → left ≤ super_page_size → left / d ≤ super_page_size / d
div_mono d left pos fits =
    let whole : left < (super_page_size / d + 1) * d =
      omega (arith, lt-div-mul-add {a = super_page_size} pos) in
    let below : left / d < super_page_size / d + 1 = (div-lt_iff_lt-mul pos).1 whole in omega arith

small_error :
    (d m left : ℕ)
    → Bounded d m
    → left ≤ super_page_size
    → left / d * (m * d - 2 ^ 35) + left % d * m < 2 ^ 35
small_error d m left b fits = elim (dec_lt (left / d) (super_page_size / d)) [
  | yes below ↦ omega (
    arith,
    mul-le-mul_right (m * d - 2 ^ 35) below,
    mul-le-mul_right m (mod-lt left b.pos),
    b.error,
    b.product,
  )
  | no above ↦
      let q_eq : left / d ≡ super_page_size / d = omega (arith, div_mono d left b.pos fits) in
      let tail : left % d ≤ super_page_size - super_page_size / d * d =
        omega (arith, div-add-mod left d, ap (λ (t : ℕ). d * t) q_eq) in
      rw q_eq (omega (arith, b.top, mul-le-mul_right m tail))
]

div_exact :
    (d left : ℕ)
    → bounded_error d ≡ true
    → left ≤ super_page_size
    → left * compute_mul_for_div d 35 / 2 ^ 35 ≡ left / d
div_exact d left ok fits =
    let b = bounded_error-Bounded d ok in
    exact d (compute_mul_for_div d 35) _ left (left / d) (left % d) (sym (div-add-mod left d))
      b.product (small_error d (compute_mul_for_div d 35) left b fits)

-- The multiplication and shift of the code, with its 64-bit and 32-bit words.
via_mul :
    (d left : ℕ)
    → bounded_error d ≡ true
    → left ≤ super_page_size
    → u32 (u64 (left * compute_mul_for_div d 35) / 2 ^ 35) ≡ left / d
via_mul d left good fits =
    let b = bounded_error-Bounded d good in
    let small : left * compute_mul_for_div d 35 < 2 ^ 64 = omega (
      arith,
      mul-le-mul_right (compute_mul_for_div d 35) fits,
      mul-le-mul_left super_page_size b.mul_small,
    ) in
    let q_small : left / d ≤ left = div-le_self left d in
    rw (mod-eq_of_lt small, div_exact d left good fits) (omega arith)

-- For a size that passes the test, `DivBySizeViaMul` by its multiplier is division by it.
pub div_by_size_via_mul-bounded :
    (d left : ℕ)
    → bounded_error d ≡ true
    → left ≤ super_page_size
    → div_by_size_via_mul left (compute_mul_for_div d div_mul_shift) ≡ left / d
unfolding div_by_size_via_mul
div_by_size_via_mul-bounded d left good fits = via_mul d left good fits

is_correct-bounded :
    (d rounds left : ℕ)
    → bounded_error d ≡ true
    → left + rounds ≤ super_page_size + 1
    → is_correct_from rounds left d (compute_mul_for_div d 35) 35 ≡ true
unfolding is_correct_from
is_correct-bounded d zero left good fits = refl
is_correct-bounded d (suc rounds) left good fits =
    let q_small : left / d ≤ left = div-le_self left d in
    let same : u32 (left / d) ≡ left / d = omega arith in
    rw (via_mul d left good (omega arith), same, ==_refl (left / d))
      (is_correct-bounded d rounds (left + 1) good (omega arith))

pub is_correct_div_to_mul-bounded :
    (d : ℕ)
    → bounded_error d ≡ true
    → is_correct_div_to_mul d (compute_mul_for_div d div_mul_shift) div_mul_shift super_page_size
      ≡ true
unfolding is_correct_div_to_mul
is_correct_div_to_mul-bounded d good = is_correct-bounded d super_page_size 1 good (omega arith)

-- For every entry of the size class table and every offset up to the size of a super page,
-- `DivBySizeViaMul` with the multiplier of `ComputeMulForDiv` is the division by that size.
pub div_by_size_via_mul-eq-div :
    (i left : ℕ)
    → i < num_size_classes
    → left ≤ super_page_size
    → div_by_size_via_mul left (compute_mul_for_div (get_or sc_array i 0) div_mul_shift)
      ≡ left / get_or sc_array i 0
div_by_size_via_mul-eq-div i left h fits =
    div_by_size_via_mul-bounded (get_or sc_array i 0) left
      (every-get_or bounded_error sc_array i 0 table_bounded h) fits
