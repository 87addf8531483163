-- ===== src/Allocator.antt =====
-- The state of `Allocator` of memtagmalloc/src/mtmalloc.h and what frees memory: a thread at a
-- time, so the atomic operations are plain ones. The tables of size classes are those that
-- `InitAll` leaves.
pub mod State
pub mod Scans
pub mod Allocate
pub mod Untag
pub mod Scopes
pub mod Kill
pub mod Release
pub mod Frees
pub mod Retags
pub mod RoundTrip
pub use State.*
use sanitizers.Base.{
  zero, suc, Mem, Outcome, ok, trap, ◌>>=◌, ◌>>◌, trap_if, check, ltb, leb, ◌==◌, if◌then◌else◌,
  add64, sub64, mul64, shl64, ℕ, ◌+◌, ◌-◌, ◌*◌, ◌%◌, ◌^◌, bit_and, Bool, not, ◌&&◌,
}
use sanitizers.Base.Int.{ℤ, pos, negsuc}
use sanitizers.Layout.{super_page_size, allocator_space, allocator_size, first_super_page}
use sanitizers.Util.{round_down_to}
use sanitizers.Tags.{Target, apply_address_tag, get_address_tag, get_memory_tag}
use sanitizers.SizeClass.{chunk_size}
use sanitizers.SuperPage.{Env, get_size_class, get_scd, deallocate, quarantine}

unfoldable pub owns : Target → ℕ → Bool
owns t tagged =
    let p = apply_address_tag t tagged 0 in
    if t.config.use_aliases == 0
    then leb allocator_space p && ltb p (allocator_space + allocator_size)
    else leb allocator_space p
      && ltb p (add64 allocator_space (shl64 allocator_size t.config.use_aliases))

-- `A2SP`
unfoldable pub super_page_at : ℕ → Outcome ℕ
super_page_at addr = do
  trap_if (ltb addr allocator_space)
  trap_if (leb (allocator_space + allocator_size) addr)
  trap_if (not (addr % super_page_size == 0))
  ok addr

unfoldable pub get_super_page : ℕ → ℕ → Outcome ℕ
get_super_page range_num idx = do
  let addr = add64 (first_super_page range_num) (mul64 idx super_page_size)
  trap_if (leb (allocator_space + allocator_size) addr)
  ok addr

unfoldable pub get_ptr_chunk_size : Env → Mem → ℕ → Outcome ℕ
get_ptr_chunk_size env m tagged = do
  let start_sp = round_down_to (apply_address_tag env.target tagged 0) super_page_size
  check (leb allocator_space start_sp)
  check (ltb start_sp (allocator_space + allocator_size))
  sp ← super_page_at start_sp
  scd ← get_scd env m sp
  ok (chunk_size scd)

-- The message is left out.
unfoldable pub remove_address_tag_and_check_for_double_free : Target → Mem → ℕ → Outcome ℕ
remove_address_tag_and_check_for_double_free t m tagged = do
  let address_tag = get_address_tag t tagged
  let ptr = apply_address_tag t tagged 0
  stored ← get_memory_tag t m ptr
  let memory_tag =
      if t.config.use_aliases == 0 then stored else bit_and stored (2 ^ t.config.use_aliases - 1)
  trap_if
      (t.config.use_shadow && (not (t.config.use_aliases == 0) && not (address_tag == memory_tag)))
  ok ptr

-- The start of the super page of a pointer that is to be freed.
unfoldable pub start_of_super_page : ℕ → Outcome ℕ
start_of_super_page p = do
  let start_sp = round_down_to p super_page_size
  trap_if (ltb start_sp allocator_space)
  trap_if (leb (allocator_space + allocator_size) start_sp)
  ok start_sp

unfoldable pub allocator_deallocate : Env → Mem → ℕ → Outcome Mem
allocator_deallocate env m tagged = do
  ptr ← remove_address_tag_and_check_for_double_free env.target m tagged
  sp ← start_of_super_page ptr
  deallocate env m sp ptr

unfoldable pub allocator_quarantine : Env → World → ℕ → Outcome World
allocator_quarantine env w tagged = do
  ptr ← remove_address_tag_and_check_for_double_free env.target w.mem tagged
  start_sp ← start_of_super_page ptr
  sp ← super_page_at start_sp
  (bytes, m') ← quarantine env w.mem sp ptr
  ok (record w {
    mem = m';
    local = record w.local { local_quarantine_size = add64 w.local.local_quarantine_size bytes };
  })

unfoldable pub data_only_scope : ℤ → Allocator → Outcome Allocator
data_only_scope (pos (suc zero)) a =
    ok (record a { data_only_scope_level = add64 a.data_only_scope_level 1 })
data_only_scope (negsuc zero) a = do
  trap_if (a.data_only_scope_level == 0)
  ok (record a { data_only_scope_level = sub64 a.data_only_scope_level 1 })
data_only_scope level a = trap

unfoldable pub count_access : Env → World → ℕ → Outcome World
count_access env w ptr =
    if owns env.target ptr
    then (do
      sc ← get_size_class w.mem (apply_address_tag env.target ptr 0)
      ok (
          with_stats w (record w.local.stats {
            accesses_per_size_class = bump w.local.stats.accesses_per_size_class sc;
          })))
    else ok
        (with_stats w (record w.local.stats { access_other = add64 w.local.stats.access_other 1 }))
