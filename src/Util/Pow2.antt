-- ===== src/Util/Pow2.antt =====
-- `IsPowerOfTwo`, `RoundUpToPowerOfTwo` and `Log2`.
use sanitizers.Base.{
  ℕ, zero, suc, ◌+◌, ◌-◌, ◌*◌, ◌/◌, ◌%◌, ◌^◌, ◌≤◌, ◌<◌, ◌≡◌, refl, sym, ap, ◌∙◌, true, false, ◌↔◌,
  ◌⊎◌, inl, inr, bit_and, ◌==◌, arith, sub64, ==_iff, bit_and_step, Bool-cases, ok,
}
use native.Mathlib.Nat.{pow-suc}
use sanitizers.Util.{is_power_of_two, log2, ctz_below, least_significant_set_bit_index}
use sanitizers.Util.Rounding.{pow_pos, pow_lt}

and_self_below : (n x : ℕ) → x ≤ n → bit_and x x ≡ x
and_self_below n zero h = refl
and_self_below zero (suc x) h = absurd (omega arith)
and_self_below (suc n) (suc x) h =
    omega (arith, bit_and_step (suc x) (suc x), and_self_below n (suc x / 2) (omega arith))

-- `x & (x - 1)` by the lowest bit of `x`.
even_step : (y : ℕ) → 0 < y → bit_and (2 * y) (2 * y - 1) ≡ 2 * bit_and y (y - 1)
even_step y h = rw (bit_and_step (2 * y) (2 * y - 1), a, b) (omega arith)
  where
    a : 2 * y / 2 ≡ y
    a = omega arith

    b : (2 * y - 1) / 2 ≡ y - 1
    b = omega arith

odd_step : (y : ℕ) → bit_and (2 * y + 1) (2 * y) ≡ 2 * y
odd_step y =
    rw (bit_and_step (2 * y + 1) (2 * y), a, b, and_self_below y y (omega arith)) (omega arith)
  where
    a : (2 * y + 1) / 2 ≡ y
    a = omega arith

    b : 2 * y / 2 ≡ y
    b = omega arith

pow_step : (k : ℕ) → bit_and (2 ^ k) (2 ^ k - 1) ≡ 0
pow_step zero = refl
pow_step (suc k) =
    let e : 2 ^ suc k ≡ 2 * 2 ^ k = omega (arith, pow-suc 2 k) in
    rw (e, even_step (2 ^ k) (pow_pos k), pow_step k)

-- A number whose lowest set bit can be cleared to give zero is a power of two.
clear_lowest : (n x : ℕ) → x ≤ n → 0 < x → bit_and x (x - 1) ≡ 0 → (k : ℕ) × (x ≡ 2 ^ k)
clear_lowest zero x h p e = absurd (omega arith)
clear_lowest (suc n) x h p e = elim (Bool-cases (x % 2 == 0)) [
  | inl even ↦
      let twice : x ≡ 2 * (x / 2) = ground arith in
      let half : bit_and (x / 2) (x / 2 - 1) ≡ 0 =
        omega
          (arith, e, even_step (x / 2) (omega arith), ap (λ (t : ℕ). bit_and t (t - 1)) twice) in
      let r = clear_lowest n (x / 2) (omega arith) (omega arith) half in
      (suc r.0, omega (arith, r.1, twice, pow-suc 2 r.0))
  | inr odd ↦
      let twice : x ≡ 2 * (x / 2) + 1 = ground arith in
      let zero_half : 2 * (x / 2) ≡ 0 = omega (
        arith,
        e,
        odd_step (x / 2),
        ap (λ (t : ℕ). bit_and t (t - 1)) twice,
        ap (bit_and (2 * (x / 2) + 1)) (less (2 * (x / 2))),
      ) in
      (0, omega (arith, twice, zero_half))
]
  where
    less : (t : ℕ) → t + 1 - 1 ≡ t
    less t = omega arith

-- `IsPowerOfTwo` holds, for a 64-bit value, of zero and of the powers of two, and of no other.
pub is_power_of_two_iff :
    (x : ℕ) → x < 2 ^ 64 → (is_power_of_two x ≡ true) ↔ ((x ≡ 0) ⊎ ((k : ℕ) × (x ≡ 2 ^ k)))
unfolding is_power_of_two
is_power_of_two_iff zero h = (λ _. inl refl, λ _. refl)
is_power_of_two_iff (suc y) h = (there, back)
  where
    pred_lem : sub64 (suc y) 1 ≡ suc y - 1
    pred_lem = omega arith

    there : is_power_of_two (suc y) ≡ true → (suc y ≡ 0) ⊎ ((k : ℕ) × (suc y ≡ 2 ^ k))
    there e = inr (
        clear_lowest (suc y) (suc y) (omega arith) (omega arith)
          (ap (bit_and (suc y)) (sym pred_lem) ∙ (==_iff _ 0).0 e))

    back : (suc y ≡ 0) ⊎ ((k : ℕ) × (suc y ≡ 2 ^ k)) → is_power_of_two (suc y) ≡ true
    back (inl e) = absurd (omega arith)
    back (inr (k, e)) = (==_iff _ 0).1 (rw (pred_lem, e) (pow_step k))

ctz-pow : (n k : ℕ) → k < n → ctz_below n (2 ^ k) ≡ k
unfolding ctz_below
ctz-pow zero k h = absurd (omega arith)
ctz-pow (suc n) zero h = refl
ctz-pow (suc n) (suc k) h =
    let half : 2 ^ suc k / 2 ≡ 2 ^ k = omega (arith, pow-suc 2 k) in
    let even : 2 ^ suc k % 2 ≡ 0 = omega (arith, pow-suc 2 k) in
    rw (even, half, ctz-pow n k (omega arith))

least-pow : (k : ℕ) → k < 64 → least_significant_set_bit_index (2 ^ k) ≡ ok k
unfolding least_significant_set_bit_index
least-pow k h =
    let pos : (2 ^ k == 0) ≡ false = ground (arith, pow_pos k) in rw (pos, ctz-pow 64 k h)

-- `Log2` of a power of two that fits a `size_t` is its exponent; the assertions pass.
pub log2-pow : (k : ℕ) → k < 64 → log2 (2 ^ k) ≡ ok k
unfolding log2
log2-pow k h = rw ((is_power_of_two_iff (2 ^ k) (pow_lt k h)).1 (inr (k, refl))) (least-pow k h)
