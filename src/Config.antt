-- ===== src/Config.antt =====
-- memtagmalloc/src/mtmalloc_config.h: the flags, read from the environment. What `getenv` and
-- `atol` give for a variable is the argument `env`, `none` for one that is not set.
pub mod Bounds
use Prim.Native.String.{String}
use sanitizers.Base.Int.{ℤ, pos, negsuc, pos_part, neg_part, ltb_ℤ}
use sanitizers.Base.{
  ◌==◌, if◌then◌else◌, ℕ, ◌+◌, ◌-◌, ◌%◌, ◌^◌, Bool, true, false, not, Option, none, some,
}

pub record MallocConfig : Type 0 where
  pub initialized : Bool
  pub print_stats : Bool
  pub print_sp_alloc : Bool
  pub print_scan : Bool
  pub large_alloc_fence : Bool
  pub large_alloc_verbose : Bool
  pub use_tag : ℕ
  pub use_shadow : Bool
  pub use_aliases : ℕ
  pub quarantine_size : ℕ
  pub handle_sig_usr2 : Bool
  pub handle_sig_segv : Bool
  pub release_freq : ℕ
  pub use_mte : Bool

unfoldable pub env_to_long : Option ℤ → ℤ → ℤ → ℤ → ℤ
env_to_long none default_value min_value max_value = default_value
env_to_long (some res) default_value min_value max_value =
    if ltb_ℤ res min_value then min_value else if ltb_ℤ max_value res then max_value else res

-- `!!x`
abbrev pub to_bool : ℤ → Bool
to_bool x = not (pos_part x + neg_part x == 0)

unfoldable pub env_to_bool : Option ℤ → Bool → Bool
env_to_bool value default_value =
    to_bool (env_to_long value (if default_value then pos 1 else pos 0) (pos 0) (pos 1))

-- A `long` stored in an unsigned bit field of `width` bits.
abbrev pub to_field : ℕ → ℤ → ℕ
to_field width (pos n) = n % 2 ^ width
to_field width (negsuc n) = 2 ^ width - 1 - n % 2 ^ width

unfoldable pub init : (String → Option ℤ) → MallocConfig → MallocConfig
init env c = if c.initialized then c else record c {
  print_stats = to_bool (env_to_long (env "MTM_PRINT_STATS") (pos 0) (pos 0) (pos 1));
  print_sp_alloc = to_bool (env_to_long (env "MTM_PRINT_SP_ALLOC") (pos 0) (pos 0) (pos 1));
  print_scan = to_bool (env_to_long (env "MTM_PRINT_SCAN") (pos 0) (pos 0) (pos 1));
  large_alloc_fence = to_bool (env_to_long (env "MTM_LARGE_ALLOC_FENCE") (pos 1) (pos 0) (pos 1));
  large_alloc_verbose =
      to_bool (env_to_long (env "MTM_LARGE_ALLOC_VERBOSE") (pos 0) (pos 0) (pos 1));
  quarantine_size = to_field 8 (env_to_long (env "MTM_QUARANTINE_SIZE") (pos 0) (pos 0) (pos 255));
  use_tag = to_field 2 (env_to_long (env "MTM_USE_TAG") (pos 0) (pos 0) (pos 2));
  use_aliases = to_field 3 (env_to_long (env "MTM_USE_ALIASES") (pos 0) (pos 0) (pos 4));
  use_shadow = to_bool (env_to_long (env "MTM_USE_SHADOW") (pos 0) (pos 0) (pos 1));
  handle_sig_usr2 = env_to_bool (env "MTM_HANDLE_SIGUSR2") true;
  handle_sig_segv = env_to_bool (env "MTM_HANDLE_SIGSEGV") true;
  release_freq = to_field 8 (env_to_long (env "MTM_RELEASE_FREQ") (pos 50) (pos 0) (pos 255));
  use_mte = env_to_bool (env "MTM_USE_MTE") false;
}

-- A zeroed object, as the constructor finds it.
abbrev pub zero_config : MallocConfig
zero_config = record {
  initialized = false;
  print_stats = false;
  print_sp_alloc = false;
  print_scan = false;
  large_alloc_fence = false;
  large_alloc_verbose = false;
  use_tag = 0;
  use_shadow = false;
  use_aliases = 0;
  quarantine_size = 0;
  handle_sig_usr2 = false;
  handle_sig_segv = false;
  release_freq = 0;
  use_mte = false;
}
