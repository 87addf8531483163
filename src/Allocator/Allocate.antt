-- ===== src/Allocator/Allocate.antt =====
-- `Allocate`, `AllocateSlower` and `AllocateSuperPage` of memtagmalloc/src/mtmalloc.h. The system
-- calls are parameters: `map_fixed` maps the pages of a super page and fails with `none`, `remap`
-- says whether an alias of a super page could be mapped.
pub mod Pages
pub mod Outcomes
pub mod Tries
pub mod Tagged
pub mod Fresh
pub mod Served
pub mod Enough
pub mod Returns
use sanitizers.Base.{
  get_or, set, Mem, Outcome, ok, trap, ◌>>=◌, ◌>>◌, trap_if, leb, ◌==◌, if◌then◌else◌, u8, u32,
  add64, ℕ, zero, suc, ◌+◌, ◌-◌, ◌%◌, ◌^◌, Bool, not, Option, none, some,
}
use sanitizers.Layout.{super_page_size, allocator_size, meta}
use sanitizers.SizeClass.{SizeClassDescr, chunk_size, size_to_size_class}
use sanitizers.SuperPage.{Env, set_size_class, try_allocate}
use sanitizers.Tags.{set_memory_tag}
use sanitizers.Allocator.{
  PerSc, Allocator, World, get_num_super_pages, bump, with_stats, rand_r, get_super_page,
}
use sanitizers.Allocator.State.{
  PerSc, Allocator, World, get_num_super_pages, bump, with_stats, rand_r,
}

pub record Os : Type 0 where
  pub map_fixed : Mem → ℕ → ℕ → Option Mem
  pub remap : ℕ → ℕ → Bool
  pub thread_id : ℕ

abbrev pub zero_per_sc : PerSc
zero_per_sc = record { sp = 0; last_idx_hint = 0 }

abbrev pub set_per_sc : World → ℕ → PerSc → World
set_per_sc w sc value = record w { local = record w.local { per_sc = set w.local.per_sc sc value } }

abbrev pub get_per_sc : World → ℕ → PerSc
get_per_sc w sc = get_or w.local.per_sc sc zero_per_sc

-- `TryAllocate` on a super page with the hint of the thread for the class.
unfoldable pub try_super_page : Env → World → ℕ → SizeClassDescr → ℕ → Outcome (Option ℕ × World)
try_super_page env w sc scd sp = do
  let data_only = not (w.allocator.data_only_scope_level == 0)
  (res, hint, m) ← try_allocate env w.mem data_only scd (get_per_sc w sc).last_idx_hint sp
  ok (res, set_per_sc (record w { mem = m }) sc (record { sp = sp; last_idx_hint = hint }))

-- The aliases from `tag` on, `rounds` of them, each above `page`.
unfoldable pub map_aliases : Os → ℕ → ℕ → ℕ → Outcome (Unit {0})
map_aliases os zero sp page = ok tt
map_aliases os (suc rounds) sp page = do
  trap_if (not (os.remap sp (add64 page allocator_size)))
  map_aliases os rounds sp (add64 page allocator_size)

-- The loop that gives each chunk a tag from the generator, with its state.
unfoldable pub tag_chunks : Env → ℕ → ℕ → Mem → ℕ → ℕ → Outcome (ℕ × Mem)
tag_chunks env size zero m addr rand = ok (rand, m)
tag_chunks env size (suc rounds) m addr rand = do
  let (tag, rand') = rand_r rand
  m' ← set_memory_tag env.target m addr size (u8 tag)
  tag_chunks env size rounds m' (addr + size) rand'

-- `if (Res) return Res;` and the next thing to do if not.
unfoldable pub or_else :
    Outcome (Option ℕ × World) → (World → Outcome (Option ℕ × World)) → Outcome (Option ℕ × World)
or_else trap next = trap
or_else (ok (some p, w)) next = ok (some p, w)
or_else (ok (none, w)) next = next w

abbrev pub count_super_page : Allocator → ℕ → Allocator
count_super_page a range_num =
    if range_num == 0
    then record a { num_super_pages0 = add64 a.num_super_pages0 1 }
    else record a { num_super_pages1 = add64 a.num_super_pages1 1 }

-- The counter `super_pages`, which is only printed, is left out.
unfoldable pub allocate_super_page : Os → Env → World → ℕ → Outcome World
allocate_super_page os env w size =
    let (sc, scd) = size_to_size_class env.descrs size in
    let aliases = 2 ^ env.target.config.use_aliases - 1 in
    do
      res ← get_super_page scd.range_num (get_num_super_pages w.allocator scd.range_num)
      m ← mapped (os.map_fixed w.mem res super_page_size)
      aliased ← map_aliases os aliases res res
      m' ← set_size_class m res sc
      (rand, m'') ← tag_chunks env (chunk_size scd) scd.num_chunks m' res w.local.rand
      ok (record w {
        mem = m'';
        allocator = count_super_page w.allocator scd.range_num;
        local = record w.local { rand = rand };
      })
  where
    mapped : Option Mem → Outcome Mem
    mapped none = trap
    mapped (some m) = ok m

-- The super pages of the range from `offset` on, `rounds` of them, starting over at the `n`-th.
unfoldable pub try_range :
    Env → ℕ → SizeClassDescr → ℕ → ℕ → ℕ → ℕ → World → Outcome (Option ℕ × World)
try_range env sc scd n offset zero i w = ok (none, w)
try_range env sc scd n offset (suc rounds) i w =
    let idx : ℕ = if leb n (i + offset) then i + offset - n else i + offset in
    or_else
      (if w.mem (add64 (meta scd.range_num) idx) == sc
        then get_super_page scd.range_num idx >>= try_super_page env w sc scd
        else ok (none, w))
      (λ w'. try_range env sc scd n offset rounds (i + 1) w')

-- Where the search begins, and the world with the next state of the generator.
unfoldable pub start_offset : World → ℕ → ℕ × World
start_offset w n =
    let (random, rand) = rand_r w.local.rand in
    if n == 0 then (0, w) else (random % n, record w { local = record w.local { rand = rand } })

-- The endless loop, for `rounds` new super pages at most.
unfoldable pub allocate_slower_from : Os → Env → ℕ → ℕ → World → Outcome (Option ℕ × World)
allocate_slower_from os env zero size w = ok (none, w)
allocate_slower_from os env (suc rounds) size w =
    let (sc, scd) = size_to_size_class env.descrs size in
    let n = get_num_super_pages w.allocator scd.range_num in
    let (offset, w1) = start_offset w n in
    or_else (try_range env sc scd n offset n 0 w1) (λ w2.
      allocate_super_page os env w2 size >>= λ w3.
      allocate_slower_from os env rounds size
        (set_per_sc w3 sc (record (get_per_sc w3 sc) { last_idx_hint = 0 })))

-- Two rounds: one over the super pages there are, one with the new one (Allocate/Returns).
unfoldable pub allocate_slower : Os → Env → World → ℕ → Outcome (Option ℕ × World)
allocate_slower os env w size =
    let rand = if w.local.rand == 0 then u32 os.thread_id else w.local.rand in
    allocate_slower_from os env 2 size (record w { local = record w.local { rand = rand } })

unfoldable pub allocate : Os → Env → World → ℕ → Outcome (Option ℕ × World)
allocate os env w size =
    let (sc, scd) = size_to_size_class env.descrs size in
    let stats = w.local.stats in
    let w1 =
      if env.target.config.print_stats
      then with_stats w
          (record stats { allocs_per_size_class = bump stats.allocs_per_size_class sc })
      else w in
    let sp = (get_per_sc w1 sc).sp in
    or_else (if sp == 0 then ok (none, w1) else try_super_page env w1 sc scd sp)
      (λ w2. allocate_slower os env w2 size)
