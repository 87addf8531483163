-- ===== src/Session.antt =====
-- What a program with one thread does with the allocator of memtagmalloc/src/mtmalloc.h: it allocates,
-- writes into what it holds, frees and quarantines, in any order. The blocks that it holds are the
-- pointers it was given and the sizes it asked for.
pub mod Stores
pub mod Frames
pub mod Apartness
pub mod Classes
pub mod Grows
pub mod Allocates
pub mod Serves
pub mod Frees
pub mod Scans
pub mod Writes
pub mod History
pub mod Contents
pub mod Service
use sanitizers.Base.{
  Mem, ok, some, ℕ, ◌+◌, ◌%◌, ◌^◌, ◌<◌, ◌≤◌, ◌≡◌, ◌≢◌, ◌⊎◌, true, List, [], ◌∷◌, length,
}
use sanitizers.Layout.{super_page_size}
use sanitizers.Shadow.{get_shadow_ptr, super_page_metadata}
use sanitizers.SizeClass.{SizeClassDescr, chunk_size, num_size_classes, max_size_class}
use sanitizers.SizeClass.Filled.{filled_descrs}
use sanitizers.SizeClass.Lookup.{class_at}
use sanitizers.SuperPage.{Env, address_of_chunk}
use sanitizers.SuperPage.Free.{is_used}
use sanitizers.Tags.{Target, apply_address_tag, get_memory_tag}
use sanitizers.Allocator.{allocator_deallocate}
use sanitizers.Allocator.State.{World}
use sanitizers.Allocator.Allocate.{Os, get_per_sc, allocate}
use sanitizers.Allocator.Allocate.Pages.{range_capacity, page_at}
use sanitizers.Allocator.Allocate.Fresh.{IsSpare}
use sanitizers.Allocator.Allocate.Outcomes.{Known}
use sanitizers.Allocator.Kill.{Process}
use sanitizers.Allocator.Scans.{quarantine_and_maybe_scan}
use sanitizers.Allocator.Scans.Safety.{IsWorldHeap, WorldLocated}
use sanitizers.Allocator.Scans.Sweeps.{state_at, address_at}

-- The invariant of the allocator. The table of classes is filled; the super pages of both ranges
-- have known classes, the rest of the second range's metadata is zero; what the thread keeps for
-- a class is a super page of that class and a hint in range.
pub record IsAllocator (env : Env) (w : World) : Type 0 where
  pub filled : env.descrs ≡ filled_descrs
  pub heap : IsWorldHeap env w
  pub slots : length w.local.per_sc ≡ num_size_classes
  pub hints :
      (sc : ℕ)
      → sc < num_size_classes
      → (get_per_sc w sc).last_idx_hint ≤ (class_at filled_descrs sc).num_chunks
  pub cached :
      (sc : ℕ)
      → sc < num_size_classes
      → ((get_per_sc w sc).sp ≡ 0) ⊎ Known (class_at filled_descrs sc) sc w (get_per_sc w sc).sp
  pub spare : IsSpare w.mem w.allocator.num_super_pages1

-- A pointer and the size that was asked for.
abbrev pub Block : Type 0
Block = ℕ × ℕ

abbrev pub block_start : Target → Block → ℕ
block_start t b = apply_address_tag t b.0 0

-- A block that the program holds is a used chunk, and the tag in its pointer agrees with the tag of
-- its memory on the bits that an address carries.
pub record IsHeld (env : Env) (w : World) (b : Block) : Type 0 where
  pub place : WorldLocated env w
  pub tag : ℕ
  pub pointer : b.0 ≡ apply_address_tag env.target (address_at place) tag
  pub small : tag < 2 ^ 8
  pub nonempty : 0 < b.1
  pub fits : b.1 ≤ chunk_size place.d
  pub used : is_used (w.mem (state_at place)) ≡ true
  pub stored : ℕ
  pub read : get_memory_tag env.target w.mem (address_at place) ≡ ok stored
  pub same_tag :
      tag % 2 ^ env.target.config.use_aliases ≡ stored % 2 ^ env.target.config.use_aliases

-- No byte is in both.
abbrev pub Apart : Target → Block → Block → Type 0
Apart t b b' =
    (block_start t b + b.1 ≤ block_start t b') ⊎ (block_start t b' + b'.1 ≤ block_start t b)

-- `P` of every block.
pub data Every (P : Block → Type 0) : List Block → Type 0 where
  nothing : Every P []
  each : {b : Block} {bs : List Block} → P b → Every P bs → Every P (b ∷ bs)

-- No byte is in two of the blocks.
pub data AllApart (t : Target) : List Block → Type 0 where
  nothing_apart : AllApart t []
  each_apart :
      {b : Block} {bs : List Block} → Every (Apart t b) bs → AllApart t bs → AllApart t (b ∷ bs)

-- `rest` is `live` without one occurrence of `b`.
pub data Removed (b : Block) : List Block → List Block → Type 0 where
  first : {bs : List Block} → Removed b (b ∷ bs) bs
  later : {a : Block} {bs rest : List Block} → Removed b bs rest → Removed b (a ∷ bs) (a ∷ rest)

-- The allocator before the first call: bytes in memory, no super page, nothing kept.
pub record IsOpened (env : Env) (w : World) : Type 0 where
  pub filled : env.descrs ≡ filled_descrs
  pub bytes : (a : ℕ) → 0x5000_0000_0000 ≤ a → w.mem a < 2 ^ 8
  pub no_pages0 : w.allocator.num_super_pages0 ≡ 0
  pub no_pages1 : w.allocator.num_super_pages1 ≡ 0
  pub slots : length w.local.per_sc ≡ num_size_classes
  pub none_kept :
      (sc : ℕ)
      → sc < num_size_classes
      → ((get_per_sc w sc).sp ≡ 0) × ((get_per_sc w sc).last_idx_hint ≡ 0)
  pub spare : IsSpare w.mem 0

-- Both ranges have room for a super page.
pub record HasRoom (w : World) : Type 0 where
  pub room0 : w.allocator.num_super_pages0 < range_capacity
  pub room1 : w.allocator.num_super_pages1 < range_capacity

-- No super page is lost, and at most one of both ranges together is new.
abbrev pub TakesFew : World → World → Type 0
TakesFew w w' =
    (w.allocator.num_super_pages0 ≤ w'.allocator.num_super_pages0)
    × (w.allocator.num_super_pages1 ≤ w'.allocator.num_super_pages1)
    × (w'.allocator.num_super_pages0 + w'.allocator.num_super_pages1
        ≤ w.allocator.num_super_pages0 + w.allocator.num_super_pages1 + 1)

-- Only bytes of the block may differ.
pub record WritesInside (t : Target) (b : Block) (m m' : Mem) : Type 0 where
  pub bytes : (a : ℕ) → block_start t b ≤ a → a < block_start t b + b.1 → m' a < 2 ^ 8
  pub outside : (a : ℕ) → (a < block_start t b) ⊎ (block_start t b + b.1 ≤ a) → m' a ≡ m a

-- The worlds that the program reaches, with the blocks that it then holds.
pub data Session (os : Os) (env : Env) : World → List Block → Type 0 where
  opened : {w : World} → IsOpened env w → Session os env w []
  allocated :
      {w w' : World} {live : List Block} {ptr : ℕ} (size : ℕ)
      → Session os env w live
      → HasRoom w
      → 0 < size
      → size ≤ max_size_class
      → allocate os env w size ≡ ok (some ptr, w')
      → Session os env w' ((ptr, size) ∷ live)
  written :
      {w : World} {live rest : List Block} {b : Block} (m' : Mem)
      → Session os env w live
      → Removed b live rest
      → WritesInside env.target b w.mem m'
      → Session os env (record w { mem = m' }) live
  deallocated :
      {w : World} {m' : Mem} {live rest : List Block} {b : Block}
      → Session os env w live
      → Removed b live rest
      → allocator_deallocate env w.mem b.0 ≡ ok m'
      → Session os env (record w { mem = m' }) rest
  quarantined :
      {w w' : World} {live rest : List Block} {b : Block} (process : Process)
      (max_quarantine_size : ℕ)
      → Session os env w live
      → Removed b live rest
      → quarantine_and_maybe_scan process env w b.0 max_quarantine_size ≡ ok w'
      → Session os env w' rest
