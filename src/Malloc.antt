-- ===== src/Malloc.antt =====
-- memtagmalloc/src/mtmalloc.cpp: the access check and the functions that replace the C library's.
pub mod Access
use sanitizers.Base.{
  Mem, Outcome, ok, ◌>>=◌, ◌>>◌, trap_if, check, ltb, leb, ◌==◌, if◌then◌else◌, add64, mul64, shl64,
  ℕ, ◌+◌, ◌-◌, ◌%◌, bit_and, not, ◌&&◌, Option, none, some,
}
use sanitizers.Util.{is_power_of_two, round_up_to}
use sanitizers.SizeClass.{max_size_class}
use sanitizers.Tags.{Target, apply_address_tag, get_address_tag, get_memory_tag}
use sanitizers.SuperPage.{Env}
use sanitizers.Allocator.{
  World, with_stats, owns, get_ptr_chunk_size, allocator_deallocate, count_access,
}
use sanitizers.Allocator.State.{World, with_stats}
use sanitizers.Allocator.Kill.{Process}
use sanitizers.Allocator.Scans.{quarantine_and_maybe_scan}
use sanitizers.Allocator.Allocate.{Os, allocate}
use sanitizers.Large.{cpu_page_size, Mmap, large_allocate, large_chunk_size, large_deallocate}

-- `__mtm_access`, called for each access to memory.
unfoldable pub mtm_access : Env → World → ℕ → Outcome World
mtm_access env w ptr = count_access env w ptr >>= λ w'.
    if owns env.target ptr
    then (do
      let address_tag = get_address_tag env.target ptr
      stored ← get_memory_tag env.target w'.mem (apply_address_tag env.target ptr 0)
      trap_if (not (address_tag == bit_and stored 15))
      ok w')
    else ok w'

-- The parameters: the system, the mappings of large chunks, and the threads that a scan signals.
pub record System : Type 0 where
  pub os : Os
  pub mmap : Mmap
  pub process : Process

-- A large chunk; the ranges that go back to the system are left out of the result.
unfoldable pub allocate_large : System → World → ℕ → ℕ → Outcome (Option ℕ × World)
allocate_large s w size alignment =
    let stats = w.local.stats in
    let w1 = with_stats w (record stats { large_allocs = add64 stats.large_allocs 1 }) in
    large_allocate s.mmap w1.mem size alignment >>= λ (ret, cut, m).
    ok (some ret, record w1 { mem = m })

unfoldable pub malloc : System → Env → World → ℕ → Outcome (Option ℕ × World)
malloc s env w given =
    let size : ℕ = if ltb given 8 then 1 else given in
    if ltb max_size_class size
    then allocate_large s w size cpu_page_size
    else allocate s.os env w size

-- A null pointer is `none`.
unfoldable pub free : System → Env → World → Option ℕ → Outcome World
free s env w none = ok w
free s env w (some p) =
    let quarantine_size = env.target.config.quarantine_size in
    if owns env.target p
    then (if quarantine_size == 0
        then (do m ← allocator_deallocate env w.mem p; ok (record w { mem = m }))
        else quarantine_and_maybe_scan s.process env w p (shl64 quarantine_size 20))
    else (do call ← large_deallocate w.mem p env.target.config.large_alloc_fence; ok w)

-- Where the byte of a pointer stands in the memory of the model.
unfoldable pub canonical : Target → ℕ → ℕ
canonical t p = if owns t p then apply_address_tag t p 0 else p

-- `memset` and `memcpy` byte by byte through the canonical addresses.
unfoldable pub mem_set : Mem → ℕ → ℕ → ℕ → Mem
mem_set m dst value n a = if leb dst a && ltb a (dst + n) then value else m a

unfoldable pub mem_copy : Mem → ℕ → ℕ → ℕ → Mem
mem_copy m dst src n a = if leb dst a && ltb a (dst + n) then m (src + (a - dst)) else m a

unfoldable pub calloc : System → Env → World → ℕ → ℕ → Outcome (Option ℕ × World)
calloc s env w nmemb size = do
  (res, w') ← malloc s env w (mul64 nmemb size)
  ok (res, record w' { mem = cleared res w'.mem })
  where
    cleared : Option ℕ → Mem → Mem
    cleared none m = m
    cleared (some p) m = mem_set m (canonical env.target p) 0 (mul64 nmemb size)

unfoldable pub realloc : System → Env → World → Option ℕ → ℕ → Outcome (Option ℕ × World)
realloc s env w none size = malloc s env w size
realloc s env w (some p) size = do
  old_size ←
      (if owns env.target p then get_ptr_chunk_size env w.mem p else large_chunk_size w.mem p)
  (new_ptr, w') ← malloc s env w size
  let n : ℕ = if ltb size old_size then size else old_size
  w'' ← free s env (record w' { mem = copied new_ptr n w'.mem }) (some p)
  ok (new_ptr, w'')
  where
    copied : Option ℕ → ℕ → Mem → Mem
    copied none n m = m
    copied (some q) n m = mem_copy m (canonical env.target q) (canonical env.target p) n

unfoldable pub posix_memalign : System → Env → World → ℕ → ℕ → Outcome (Option ℕ × World)
posix_memalign s env w alignment given = if leb alignment 16 then malloc s env w given else (do
  check (is_power_of_two alignment)
  check (leb 8 alignment)
  let size = round_up_to given alignment
  if leb size max_size_class
      then malloc s env w size >>= aligned alignment
      else allocate_large s w size alignment)
  where
    aligned : ℕ → Option ℕ × World → Outcome (Option ℕ × World)
    aligned alignment (none, w') = ok (none, w')
    aligned alignment (some p, w') = do check (p % alignment == 0); ok (some p, w')
