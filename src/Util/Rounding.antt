-- ===== src/Util/Rounding.antt =====
-- `RoundUpTo`, `RoundDownTo` and `IsAligned` at a boundary that is a power of two.
use sanitizers.Base.{
  ℕ, suc, ◌+◌, ◌-◌, ◌*◌, ◌/◌, ◌%◌, ◌^◌, ◌≤◌, ◌<◌, ◌≡◌, sym, ◌∙◌, true, ◌↔◌, bit_and, arith, add64,
  sub64, not64, bit_and-high_mask, bit_and-low_mask, ==_iff, pow_join,
}
use native.Mathlib.Nat.{
  one-le-pow, mul_comm, mul-sub, pow-suc, pow-le-pow_right, mod-eq_of_lt, div-lt_iff_lt-mul,
  mul-mod_left, div-mul-le_self, lt-div-mul-add,
}
use sanitizers.Util.{round_up_to, round_down_to, is_aligned}

pub pow_pos : (k : ℕ) → 1 ≤ 2 ^ k
pow_pos k = one-le-pow k 2 (omega arith)

pub pow_le : (k : ℕ) → k ≤ 64 → 2 ^ k ≤ 2 ^ 64
pow_le k h = pow-le-pow_right {n = 2} (omega arith) h

pub pow_lt : (k : ℕ) → k < 64 → 2 ^ k < 2 ^ 64
pow_lt k h = omega (arith, pow_le (suc k) h, pow-suc 2 k, pow_pos k)

whole : (k : ℕ) → k ≤ 64 → 2 ^ (64 - k) * 2 ^ k ≡ 2 ^ 64
whole k h = let e : 64 - k + k ≡ 64 = omega arith in sym (pow_join (64 - k) k) ∙ rw e

-- The mask of a boundary `2 ^ k` keeps the bits from `k` on.
high_mask : (k : ℕ) → k ≤ 64 → not64 (sub64 (2 ^ k) 1) ≡ (2 ^ (64 - k) - 1) * 2 ^ k
high_mask k h =
    rw
      (
        mul_comm (2 ^ (64 - k) - 1) (2 ^ k),
        mul-sub (2 ^ k) (2 ^ (64 - k)) 1,
        mul_comm (2 ^ k) (2 ^ (64 - k)),
        whole k h,
      )
      (omega (arith, pow_pos k, pow_le k h))

and-high_mask :
    (k x : ℕ) → k < 64 → x < 2 ^ 64 → bit_and x (not64 (sub64 (2 ^ k) 1)) ≡ x / 2 ^ k * 2 ^ k
and-high_mask k x h hx =
    rw (high_mask k (omega arith), bit_and-high_mask (64 - k) k x, mod-eq_of_lt small)
  where
    small : x / 2 ^ k < 2 ^ (64 - k)
    small = (div-lt_iff_lt-mul (pow_pos k)).1 (rw (whole k (omega arith)) hx)

pub round_down_to_lem :
    (k x : ℕ) → k < 64 → x < 2 ^ 64 → round_down_to x (2 ^ k) ≡ x / 2 ^ k * 2 ^ k
unfolding round_down_to
round_down_to_lem k x h hx = and-high_mask k x h hx

pub round_up_to_lem :
    (k x : ℕ)
    → k < 64
    → x + 2 ^ k ≤ 2 ^ 64
    → round_up_to x (2 ^ k) ≡ (x + 2 ^ k - 1) / 2 ^ k * 2 ^ k
unfolding round_up_to
round_up_to_lem k x h hx =
    rw (no_wrap, and-high_mask k (x + 2 ^ k - 1) h (omega (arith, pow_pos k)))
  where
    no_wrap : sub64 (add64 x (2 ^ k)) 1 ≡ x + 2 ^ k - 1
    no_wrap = omega (arith, pow_pos k)

-- At a boundary `2 ^ k` below 2 ^ 64 and a value that is at least a boundary away from wrapping,
-- `RoundUpTo` returns the one multiple of the boundary in `[x, x + 2 ^ k)`.
pub round_up_to_bounds :
    (k x : ℕ)
    → k < 64
    → x + 2 ^ k ≤ 2 ^ 64
    → (x ≤ round_up_to x (2 ^ k))
      × (round_up_to x (2 ^ k) < x + 2 ^ k)
      × (round_up_to x (2 ^ k) % 2 ^ k ≡ 0)
round_up_to_bounds k x h hx = rw (round_up_to_lem k x h hx) (
  omega (arith, lt-div-mul-add {a = x + 2 ^ k - 1} (pow_pos k), pow_pos k),
  omega (arith, div-mul-le_self (x + 2 ^ k - 1) (2 ^ k), pow_pos k),
  mul-mod_left ((x + 2 ^ k - 1) / 2 ^ k) (2 ^ k),
)

-- `RoundDownTo` returns the one multiple of the boundary in `(x - 2 ^ k, x]`.
pub round_down_to_bounds :
    (k x : ℕ)
    → k < 64
    → x < 2 ^ 64
    → (round_down_to x (2 ^ k) ≤ x)
      × (x < round_down_to x (2 ^ k) + 2 ^ k)
      × (round_down_to x (2 ^ k) % 2 ^ k ≡ 0)
round_down_to_bounds k x h hx =
    rw (round_down_to_lem k x h hx)
      (div-mul-le_self x (2 ^ k), lt-div-mul-add (pow_pos k), mul-mod_left (x / 2 ^ k) (2 ^ k))

-- `IsAligned` decides divisibility by a boundary `2 ^ k`.
pub is_aligned_lem : (k x : ℕ) → k < 64 → (is_aligned x (2 ^ k) ≡ true) ↔ (x % 2 ^ k ≡ 0)
unfolding is_aligned
is_aligned_lem k x h = rw (low, bit_and-low_mask k x) (==_iff (x % 2 ^ k) 0)
  where
    low : sub64 (2 ^ k) 1 ≡ 2 ^ k - 1
    low = omega (arith, pow_pos k, pow_le k (omega arith))
