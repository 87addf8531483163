-- ===== src/Allocator/Frees.antt =====
-- `Deallocate` of the allocator, from the tagged pointer to the state of the chunk.
use sanitizers.Base.{
  u8, add64, leb, false, Mem, ok, trap, ◌==◌, if◌then◌else◌, le→ltb, Bool-cases, ℕ, ◌+◌, ◌*◌, ◌%◌,
  ◌^◌, ◌<◌, ◌≡◌, refl, ◌∙◌, inl, inr, ◌&&◌, arith,
}
use sanitizers.Layout.{super_page_size, allocator_space, allocator_size}
use sanitizers.Util.{round_down_to}
use sanitizers.Util.Rounding.{round_down_to_lem}
use sanitizers.SizeClass.{SizeClassDescr, chunk_size}
use sanitizers.Tags.{apply_address_tag, get_memory_tag}
use sanitizers.SuperPage.{state_on_free, available, Env, states_of, address_of_chunk}
use sanitizers.SuperPage.State.{available}
use sanitizers.SuperPage.Chunk.{
  IsPlaced, IsSuperPage, in_space, chunk_end, address_of_chunk_lem, chunk-InAllocator,
}
use sanitizers.SuperPage.Free.{is_used, KeepsBut, deallocate-chunk, quarantine-chunk}
use sanitizers.Allocator.{
  start_of_super_page, super_page_at, allocator_quarantine, allocator_deallocate,
}
use sanitizers.Allocator.State.{World}
use sanitizers.Allocator.Untag.{UsesAliases, remove_address_tag_lem}

-- The super page of a chunk's address is found by rounding down.
pub start_of_super_page-chunk :
    {sp : ℕ} {d : SizeClassDescr} (s : IsPlaced sp d) (p : ℕ)
    → p < d.num_chunks
    → start_of_super_page (address_of_chunk sp p d) ≡ ok sp
unfolding start_of_super_page
start_of_super_page-chunk {sp} {d} s p h =
    let (lower, upper) = in_space s in
    let inside = chunk_end s p h in
    let start : round_down_to (sp + p * chunk_size d) super_page_size ≡ sp =
      round_down_to_lem 19 (sp + p * chunk_size d) (omega arith) (omega (arith, s.descr.size_pos))
      ∙ omega (arith, s.aligned, s.descr.size_pos) in
    let past : leb (allocator_space + allocator_size) sp ≡ false = ground arith in
    rw (address_of_chunk_lem s p h, start, le→ltb sp allocator_space lower, past) refl

-- A free of a chunk through a pointer with tag `tag`, with tags in the shadow and in aliases: it
-- traps exactly if the tag disagrees with the tag of the chunk's memory on the bits of an address
-- or if the chunk is not in use. Otherwise the chunk is available, and above the shadows no other
-- byte changes.
pub allocator_deallocate-chunk :
    (env : Env) (m : Mem) {sp p : ℕ} {d : SizeClassDescr} {tag stored : ℕ}
    → UsesAliases env.target
    → IsSuperPage env m sp d
    → p < d.num_chunks
    → tag < 2 ^ 8
    → get_memory_tag env.target m (address_of_chunk sp p d) ≡ ok stored
    → (m' : Mem) × (allocator_deallocate env m
          (apply_address_tag env.target (address_of_chunk sp p d) tag)
        ≡ (if (tag % 2 ^ env.target.config.use_aliases
                == stored % 2 ^ env.target.config.use_aliases)
              && is_used (m (states_of sp d + p))
            then ok m'
            else trap))
      × (m' (states_of sp d + p) ≡ available)
      × KeepsBut m m' (states_of sp d + p)
unfolding allocator_deallocate
allocator_deallocate-chunk env m {sp} {p} {d} {tag} {stored} u s h small read =
    let (m', freed, now, keeps) = deallocate-chunk env m s u.few p h in
    let aliases = env.target.config.use_aliases in
    let start = start_of_super_page-chunk s.place p h in
    let checked =
      remove_address_tag_lem env.target u m (address_of_chunk sp p d) tag stored
        (chunk-InAllocator s.place p h) small read in
    (
      m',
      rw checked (elim (Bool-cases (tag % 2 ^ aliases == stored % 2 ^ aliases)) [
        | inl same ↦ rw (same, start) freed
        | inr differs ↦ rw differs refl
      ]),
      now,
      keeps,
    )

-- `Quarantine` of the allocator traps in the same cases. Otherwise the state of the chunk becomes what
-- the flag `UseTag` makes of the next tag, and what the threads keep of super pages is the same.
pub allocator_quarantine-chunk :
    (env : Env) (w : World) {sp p : ℕ} {d : SizeClassDescr} {tag : ℕ}
    → UsesAliases env.target
    → IsSuperPage env w.mem sp d
    → p < d.num_chunks
    → tag < 2 ^ 8
    → (stored : ℕ) × (w' : World) × (get_memory_tag env.target w.mem (address_of_chunk sp p d)
        ≡ ok stored)
      × (allocator_quarantine env w (apply_address_tag env.target (address_of_chunk sp p d) tag) ≡ (
          if (tag % 2 ^ env.target.config.use_aliases == stored % 2 ^ env.target.config.use_aliases)
            && is_used (w.mem (states_of sp d + p))
          then ok w'
          else trap))
      × (w'.mem (states_of sp d + p) ≡ state_on_free env.target.config.use_tag (u8 (stored + 1)))
      × KeepsBut w.mem w'.mem (states_of sp d + p)
      × (w'.allocator ≡ w.allocator)
      × (w'.local.per_sc ≡ w.local.per_sc)
unfolding allocator_quarantine super_page_at
allocator_quarantine-chunk env w {sp} {p} {d} {tag} u s h small =
    let (stored, m', read, freed, now, keeps) = quarantine-chunk env w.mem s u.few p h in
    let aliases = env.target.config.use_aliases in
    let start = start_of_super_page-chunk s.place p h in
    let (lower, upper) = in_space s.place in
    let past : leb (allocator_space + allocator_size) sp ≡ false = ground arith in
    let checked =
      remove_address_tag_lem env.target u w.mem (address_of_chunk sp p d) tag stored
        (chunk-InAllocator s.place p h) small read in
    (
      stored,
      record w {
        mem = m';
        local = record w.local {
          local_quarantine_size = add64 w.local.local_quarantine_size (
              if state_on_free env.target.config.use_tag (u8 (stored + 1)) == available
              then 0
              else chunk_size d);
        };
      },
      read,
      rw checked (elim (Bool-cases (tag % 2 ^ aliases == stored % 2 ^ aliases)) [
        | inr differs ↦ rw differs refl
        | inl same ↦ elim (Bool-cases (is_used (w.mem (states_of sp d + p)))) [
          | inl used ↦
              let ok_now = rw used at freed in
              rw (same, used, start, le→ltb sp allocator_space lower, past, s.place.aligned, ok_now)
                refl
          | inr unused ↦
              let trap_now = rw unused at freed in
              rw
                (
                  same,
                  unused,
                  start,
                  le→ltb sp allocator_space lower,
                  past,
                  s.place.aligned,
                  trap_now,
                )
                refl
        ]
      ]),
      now,
      keeps,
      refl,
      refl,
    )
