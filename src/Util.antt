-- ===== src/Util.antt =====
-- memtagmalloc/src/mtmalloc_util.h: rounding and powers of two on `size_t`.
pub mod Rounding
pub mod Pow2
use sanitizers.Base.{
  ℕ, zero, suc, ◌+◌, ◌/◌, ◌%◌, Bool, true, false, bit_and, ◌==◌, if◌then◌else◌, add64, sub64, not64,
  shl64, Outcome, check, ◌>>◌, ok,
}

-- `x & (x - 1)`
unfoldable pub is_power_of_two : ℕ → Bool
is_power_of_two x = bit_and x (sub64 x 1) == 0

unfoldable pub round_up_to : ℕ → ℕ → ℕ
round_up_to size boundary = bit_and (sub64 (add64 size boundary) 1) (not64 (sub64 boundary 1))

unfoldable pub round_down_to : ℕ → ℕ → ℕ
round_down_to x boundary = bit_and x (not64 (sub64 boundary 1))

unfoldable pub is_aligned : ℕ → ℕ → Bool
is_aligned a alignment = bit_and a (sub64 alignment 1) == 0

-- `63 - __builtin_clzl(x)`, the number of halvings that leave 1; the builtin is undefined at 0.
unfoldable pub msb_below : ℕ → ℕ → ℕ
msb_below zero x = 0
msb_below (suc k) x = let rest = msb_below k (x / 2) in if x / 2 == 0 then 0 else suc rest

unfoldable pub most_significant_set_bit_index : ℕ → ℕ
most_significant_set_bit_index x = msb_below 64 x

-- `__builtin_ctzl(x)`, the number of halvings with no remainder; the builtin is undefined at 0.
unfoldable pub ctz_below : ℕ → ℕ → ℕ
ctz_below zero x = 0
ctz_below (suc k) x = let rest = ctz_below k (x / 2) in if x % 2 == 1 then 0 else suc rest

unfoldable pub least_significant_set_bit_index : ℕ → Outcome ℕ
least_significant_set_bit_index x = do check (if x == 0 then false else true); ok (ctz_below 64 x)

unfoldable pub round_up_to_power_of_two : ℕ → ℕ
round_up_to_power_of_two size =
    if is_power_of_two size then size else shl64 1 (most_significant_set_bit_index size + 1)

unfoldable pub log2 : ℕ → Outcome ℕ
log2 x = do check (is_power_of_two x); least_significant_set_bit_index x
