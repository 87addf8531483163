-- ===== src/Base/Bits.antt =====
-- `&` and `|` on native numbers at every width: they split at any bit, and a mask of low bits is
-- a remainder.
use Prim.Native.Nat.{
  ℕ, zero, suc, ◌+◌, ◌-◌, ◌*◌, ◌/◌, ◌%◌, ◌^◌, ◌≤◌, ◌<◌, min, max, bit_and, bit_or, digits, bitwise,
  bit_and-bitwise, bit_or-bitwise,
}
use mathlib.Core.Path.{◌≡◌, refl, sym, ap, ◌∙◌}
use native.Mathlib.Omega.{arith}
use native.Mathlib.Nat.{
  add-zero, add-suc, pow-suc, pow-succ', one-le-pow, div-div-eq-div-mul, mod-eq-sub-div-mul,
  div-mul-le_self, div-one, mod-one, mul-div_left, mul-mod_left, div-eq_of_lt, mod-eq_of_lt,
}

-- The native operations stand for a recursion on binary digits with fuel; `op` joins two digits and
-- `rest` says what is left of the second number when the first has run out.
module _ (rest : ℕ → ℕ) (op : ℕ → ℕ → ℕ) where
  more_fuel : (x y fuel : ℕ) → x ≤ fuel → digits rest op fuel x y ≡ digits rest op (suc fuel) x y
  more_fuel zero y zero h = refl
  more_fuel zero y (suc fuel) h = refl
  more_fuel (suc x) y zero h = absurd (omega arith)
  more_fuel (suc x) y (suc fuel) h =
      ap (λ (t : ℕ). t * 2 + op (suc x % 2) (y % 2))
        (more_fuel (suc x / 2) (y / 2) fuel (omega arith))

  -- Fuel beyond the number itself changes nothing.
  spare_fuel : (extra x y : ℕ) → digits rest op (extra + x) x y ≡ bitwise rest op x y
  spare_fuel zero x y = let e : 0 + x ≡ x = omega arith in rw e
  spare_fuel (suc extra) x y =
      let e : suc extra + x ≡ suc (extra + x) = omega arith in
      rw e (sym (more_fuel x y (extra + x) (omega arith)) ∙ spare_fuel extra x y)

  lowest_digit :
      (x y : ℕ)
      → bitwise rest op (suc x) y ≡ bitwise rest op (suc x / 2) (y / 2) * 2 + op (suc x % 2) (y % 2)
  lowest_digit x y =
      let e : x ≡ x - suc x / 2 + suc x / 2 = omega arith in
      ap (λ (t : ℕ). t * 2 + op (suc x % 2) (y % 2))
        (ap (λ (t : ℕ). digits rest op t (suc x / 2) (y / 2)) e
          ∙ spare_fuel (x - suc x / 2) (suc x / 2) (y / 2))

pub bit_and_step : (x y : ℕ) → bit_and x y ≡ min (x % 2) (y % 2) + 2 * bit_and (x / 2) (y / 2)
bit_and_step zero y = omega (arith, bit_and-bitwise 0 y, bit_and-bitwise 0 (y / 2))
bit_and_step (suc x) y =
    rw (bit_and-bitwise (suc x) y, bit_and-bitwise (suc x / 2) (y / 2))
      (omega (arith, lowest_digit (λ _. 0) min x y))

pub bit_or_step : (x y : ℕ) → bit_or x y ≡ max (x % 2) (y % 2) + 2 * bit_or (x / 2) (y / 2)
bit_or_step zero y = omega (arith, bit_or-bitwise 0 y, bit_or-bitwise 0 (y / 2))
bit_or_step (suc x) y =
    rw (bit_or-bitwise (suc x) y, bit_or-bitwise (suc x / 2) (y / 2))
      (omega (arith, lowest_digit (λ y. y) max x y))

div-pow_suc : (a k : ℕ) → a / 2 ^ suc k ≡ a / 2 / 2 ^ k
div-pow_suc a k = rw (div-div-eq-div-mul a 2 (2 ^ k), pow-succ' 2 k)

mod-pow_suc : (a k : ℕ) → a % 2 ^ suc k ≡ a / 2 % 2 ^ k * 2 + a % 2
mod-pow_suc a k = omega (
  arith,
  div-pow_suc a k,
  pow-succ' 2 k,
  mod-eq-sub-div-mul a (2 ^ suc k),
  mod-eq-sub-div-mul (a / 2) (2 ^ k),
  div-mul-le_self a (2 ^ suc k),
  div-mul-le_self (a / 2) (2 ^ k),
  ap (λ (t : ℕ). a / 2 / 2 ^ k * t) (pow-succ' 2 k),
  ap (λ (t : ℕ). t * 2 ^ suc k) (div-pow_suc a k),
)

half-mod_pow : (a k : ℕ) → a % 2 ^ suc k / 2 ≡ a / 2 % 2 ^ k
half-mod_pow a k = omega (arith, mod-pow_suc a k)

parity-mod_pow : (a k : ℕ) → a % 2 ^ suc k % 2 ≡ a % 2
parity-mod_pow a k = omega (arith, mod-pow_suc a k)

-- Both operations work on the bits below `k` and on those from `k` on apart.
pub bit_and_split :
    (k a b : ℕ)
    → bit_and a b ≡ bit_and (a / 2 ^ k) (b / 2 ^ k) * 2 ^ k + bit_and (a % 2 ^ k) (b % 2 ^ k)
bit_and_split zero a b = rw (div-one a, div-one b, mod-one a, mod-one b) (omega arith)
bit_and_split (suc k) a b =
    rw
      (
        bit_and_step a b,
        bit_and_split k (a / 2) (b / 2),
        bit_and_step (a % 2 ^ suc k) (b % 2 ^ suc k),
        half-mod_pow a k,
        half-mod_pow b k,
        parity-mod_pow a k,
        parity-mod_pow b k,
        div-pow_suc a k,
        div-pow_suc b k,
        pow-suc 2 k,
      )
      (omega arith)

pub bit_or_split :
    (k a b : ℕ)
    → bit_or a b ≡ bit_or (a / 2 ^ k) (b / 2 ^ k) * 2 ^ k + bit_or (a % 2 ^ k) (b % 2 ^ k)
bit_or_split zero a b = rw (div-one a, div-one b, mod-one a, mod-one b) (omega arith)
bit_or_split (suc k) a b =
    rw
      (
        bit_or_step a b,
        bit_or_split k (a / 2) (b / 2),
        bit_or_step (a % 2 ^ suc k) (b % 2 ^ suc k),
        half-mod_pow a k,
        half-mod_pow b k,
        parity-mod_pow a k,
        parity-mod_pow b k,
        div-pow_suc a k,
        div-pow_suc b k,
        pow-suc 2 k,
      )
      (omega arith)

and_zero_below : (bound x : ℕ) → x < bound → bit_and x 0 ≡ 0
and_zero_below zero x h = absurd (omega arith)
and_zero_below (suc bound) zero h = refl
and_zero_below (suc bound) (suc x) h =
    omega (arith, and_zero_below bound (suc x / 2) (omega arith), bit_and_step (suc x) 0)

pub bit_and-zero : (a : ℕ) → bit_and a 0 ≡ 0
bit_and-zero a = and_zero_below (suc a) a (omega arith)

or_zero_below : (bound x : ℕ) → x < bound → bit_or x 0 ≡ x
or_zero_below zero x h = absurd (omega arith)
or_zero_below (suc bound) zero h = refl
or_zero_below (suc bound) (suc x) h =
    omega (arith, or_zero_below bound (suc x / 2) (omega arith), bit_or_step (suc x) 0)

pub bit_or-zero : (a : ℕ) → bit_or a 0 ≡ a
bit_or-zero a = or_zero_below (suc a) a (omega arith)

pub zero-bit_or : (a : ℕ) → bit_or 0 a ≡ a
zero-bit_or a = bit_or-bitwise 0 a

pub zero-bit_and : (a : ℕ) → bit_and 0 a ≡ 0
zero-bit_and a = bit_and-bitwise 0 a

-- A mask of `k` low bits is the remainder by `2 ^ k`.
pub bit_and-low_mask : (k a : ℕ) → bit_and a (2 ^ k - 1) ≡ a % 2 ^ k
bit_and-low_mask zero a = omega (arith, bit_and-zero a, mod-one a)
bit_and-low_mask (suc k) a =
    let half : (2 ^ suc k - 1) / 2 ≡ 2 ^ k - 1 =
      omega (arith, pow-suc 2 k, one-le-pow k 2 (omega arith)) in
    let odd : (2 ^ suc k - 1) % 2 ≡ 1 = omega (arith, pow-suc 2 k, one-le-pow k 2 (omega arith)) in
    rw (bit_and_step a (2 ^ suc k - 1), half, odd, bit_and-low_mask k (a / 2), mod-pow_suc a k)
      (omega arith)

-- A mask of the `n` bits from bit `k` on.
pub bit_and-high_mask : (n k a : ℕ) → bit_and a ((2 ^ n - 1) * 2 ^ k) ≡ a / 2 ^ k % 2 ^ n * 2 ^ k
bit_and-high_mask n k a =
    rw
      (
        bit_and_split k a ((2 ^ n - 1) * 2 ^ k),
        mul-div_left (2 ^ n - 1) (one-le-pow k 2 (omega arith)),
        mul-mod_left (2 ^ n - 1) (2 ^ k),
        bit_and-low_mask n (a / 2 ^ k),
        bit_and-zero (a % 2 ^ k),
      )
      (omega arith)

-- `|` of fields that do not overlap is their sum.
pub bit_or-fields : (k a b : ℕ) → a < 2 ^ k → bit_or a (b * 2 ^ k) ≡ a + b * 2 ^ k
bit_or-fields k a b h =
    rw
      (
        bit_or_split k a (b * 2 ^ k),
        mul-div_left b (one-le-pow k 2 (omega arith)),
        mul-mod_left b (2 ^ k),
        div-eq_of_lt h,
        mod-eq_of_lt h,
        zero-bit_or b,
        bit_or-zero a,
      )
      (omega arith)

pub pow_join : (a b : ℕ) → 2 ^ (a + b) ≡ 2 ^ a * 2 ^ b
pow_join a zero = rw (add-zero a) (omega arith)
pow_join a (suc b) = rw (add-suc a b, pow-suc 2 (a + b), pow_join a b, pow-suc 2 b) (omega arith)

pub fields-bit_or : (k a b : ℕ) → a < 2 ^ k → bit_or (b * 2 ^ k) a ≡ b * 2 ^ k + a
fields-bit_or k a b h =
    rw
      (
        bit_or_split k (b * 2 ^ k) a,
        mul-div_left b (one-le-pow k 2 (omega arith)),
        mul-mod_left b (2 ^ k),
        div-eq_of_lt h,
        mod-eq_of_lt h,
        zero-bit_or a,
        bit_or-zero b,
      )
      (omega arith)
