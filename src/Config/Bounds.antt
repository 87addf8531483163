-- ===== src/Config/Bounds.antt =====
-- The flags that the environment can set lie in their ranges.
use Prim.Native.String.{String}
use sanitizers.Base.Int.{ℤ, pos, negsuc}
use sanitizers.Base.{
  ltb, Bool-cases, ℕ, ◌+◌, ◌^◌, ◌≤◌, ◌<◌, ◌≡◌, refl, inl, inr, false, Option, none, some, arith,
}
use sanitizers.Config.{MallocConfig, env_to_long, to_field, init}
use native.Mathlib.Nat.{mod-eq_of_lt}

-- `EnvToLong` clamps what is set, and passes on the default for what is not.
env_to_long_clamps :
    (value : Option ℤ) (d hi : ℕ)
    → d ≤ hi
    → (n : ℕ) × (env_to_long value (pos d) (pos 0) (pos hi) ≡ pos n) × (n ≤ hi)
unfolding env_to_long
env_to_long_clamps none d hi h = (d, refl, h)
env_to_long_clamps (some (pos n)) d hi h = elim (Bool-cases (ltb (hi + 0) (n + 0))) [
  | inl over ↦ rw over (hi, ground arith, omega arith)
  | inr under ↦ rw under (n, ground arith, ground arith)
]
env_to_long_clamps (some (negsuc n)) d hi h = (0, ground arith, omega arith)

-- The bit fields hold what is assigned to them.
pub record InRange (c : MallocConfig) : Type 0 where
  pub tag : c.use_tag ≤ 2
  pub aliases : c.use_aliases ≤ 4
  pub quarantine : c.quarantine_size ≤ 255
  pub release : c.release_freq ≤ 255

field_bound :
    (value : Option ℤ) (width d hi : ℕ)
    → d ≤ hi
    → hi < 2 ^ width
    → to_field width (env_to_long value (pos d) (pos 0) (pos hi)) ≤ hi
field_bound value width d hi h fits =
    let (n, eq, le) = env_to_long_clamps value d hi h in
    rw (eq, mod-eq_of_lt {n = n} {m = 2 ^ width} (omega arith)) le

-- Whatever the environment holds, `Init` on a configuration that is not yet initialised leaves
-- each numeric flag in the range that `EnvToLong` was given, so its bit field loses nothing, and
-- does not record that it ran: `Initialized` stays as it was.
pub init-InRange :
    (env : String → Option ℤ) (c : MallocConfig)
    → c.initialized ≡ false
    → InRange (init env c) × ((init env c).initialized ≡ false)
unfolding init
init-InRange env c fresh = rw fresh (
  record {
    tag = field_bound (env "MTM_USE_TAG") 2 0 2 (omega arith) (omega arith);
    aliases = field_bound (env "MTM_USE_ALIASES") 3 0 4 (omega arith) (omega arith);
    quarantine = field_bound (env "MTM_QUARANTINE_SIZE") 8 0 255 (omega arith) (omega arith);
    release = field_bound (env "MTM_RELEASE_FREQ") 8 50 255 (omega arith) (omega arith);
  },
  refl,
)
