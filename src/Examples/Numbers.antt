-- ===== src/Examples/Numbers.antt =====
-- Rounding, powers of two and flags at concrete inputs.
use Prim.Native.String.{String}
use sanitizers.Base.{ℕ, ◌≡◌, refl, false, Option, some}
use sanitizers.Base.Int.{ℤ, negsuc}
use sanitizers.Util.{
  is_power_of_two, round_up_to, round_down_to, msb_below, most_significant_set_bit_index,
  round_up_to_power_of_two,
}
use sanitizers.Config.{init, zero_config}
use sanitizers.Config.Bounds.{InRange, init-InRange}

rounding_runs : (round_up_to 33 32 ≡ 64) × (round_up_to 64 32 ≡ 64) × (round_down_to 95 32 ≡ 64)
unfolding round_up_to round_down_to
rounding_runs = (refl, refl, refl)

powers_run : (round_up_to_power_of_two 1000 ≡ 1024) × (round_up_to_power_of_two 64 ≡ 64)
unfolding round_up_to_power_of_two is_power_of_two most_significant_set_bit_index msb_below
powers_run = (refl, refl)

abbrev page : ℕ
page = 4096

-- An environment that asks for an impossible number of aliases and a negative quarantine.
abbrev odd_env : String → Option ℤ
odd_env _ = some (negsuc 4)

init-InRange_example :
    InRange (init odd_env zero_config) × ((init odd_env zero_config).initialized ≡ false)
init-InRange_example = init-InRange odd_env zero_config refl
