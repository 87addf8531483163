-- ===== src/Tags.antt =====
-- memtagmalloc/src/mtmalloc_tags.h: tags in addresses and tags of memory. `tbi` is `kUseArmTBI`.
-- The build is one without `__ARM_FEATURE_MEMORY_TAGGING`, whose `__arm_mte_set_tag` does nothing
-- and whose `__arm_mte_get_tag` returns its argument.
pub mod Address
pub mod Memory
pub mod Frames
use sanitizers.Base.{
  Mem, Outcome, ok, trap, ◌>>=◌, ◌>>◌, check, ◌==◌, if◌then◌else◌, u8, not64, shl64, shr, ℕ, ◌-◌,
  ◌%◌, ◌^◌, bit_and, bit_or, Bool, not, ◌&&◌,
}
use sanitizers.Shadow.{is_mine, get, put_range, small_shadow, large_shadow}
use sanitizers.Config.{MallocConfig}

-- What does not change after the start: the target, the flags.
pub record Target : Type 0 where
  pub tbi : Bool
  pub config : MallocConfig

unfoldable pub apply_address_tag : Target → ℕ → ℕ → ℕ
apply_address_tag t ptr addr_tag =
    if t.tbi
    then bit_or (bit_and ptr (not64 (shl64 255 56))) (shl64 addr_tag 56)
    else if t.config.use_aliases == 0
    then ptr
    else bit_or (bit_and ptr (not64 (shl64 15 37)))
        (shl64 (bit_and addr_tag (2 ^ t.config.use_aliases - 1)) 37)

unfoldable pub get_address_tag : Target → ℕ → ℕ
get_address_tag t addr =
    if t.tbi then u8 (shr addr 56) else u8 (bit_and (shr addr 37) (2 ^ t.config.use_aliases - 1))

unfoldable pub arm_mte_get_tag : ℕ → ℕ
arm_mte_get_tag p = p

unfoldable pub set_memory_tag : Target → Mem → ℕ → ℕ → ℕ → Outcome Mem
set_memory_tag t m addr size tag =
    if t.config.use_mte
    then (do
      let ptr = apply_address_tag t addr (tag % 15)
      check ((size % 16 == 0) && (ptr % 16 == 0))
      ok m)
    else if not t.config.use_shadow
    then ok m
    else if is_mine small_shadow addr
    then put_range small_shadow m addr size tag
    else if is_mine large_shadow addr
    then put_range large_shadow m addr size tag
    else trap

unfoldable pub get_memory_tag : Target → Mem → ℕ → Outcome ℕ
get_memory_tag t m addr =
    if t.config.use_mte
    then ok (bit_and (shr (arm_mte_get_tag addr) 56) 15)
    else if not t.config.use_shadow
    then ok 0
    else if is_mine small_shadow addr
    then ok (get small_shadow m addr)
    else if is_mine large_shadow addr
    then ok (get large_shadow m addr)
    else trap

unfoldable pub prot_mte : Target → ℕ
prot_mte t = if t.config.use_mte then 0x20 else 0
