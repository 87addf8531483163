-- ===== src/Allocator/Allocate/Served.antt =====
-- The allocator before a call, and a chunk that is served.
use sanitizers.SuperPage.Chunk.{IsPlaced}
use sanitizers.Base.{◌⊎◌, ℕ, ◌+◌, ◌≡◌, ◌<◌, ◌≤◌, ◌≡◌, length}
use sanitizers.Shadow.{get_shadow_ptr, super_page_metadata}
use sanitizers.SizeClass.{SizeClassDescr, num_size_classes}
use sanitizers.SizeClass.Filled.{filled_descrs}
use sanitizers.SizeClass.Lookup.{class_at}
use sanitizers.SuperPage.{Env}
use sanitizers.Allocator.State.{World, get_num_super_pages}
use sanitizers.Allocator.Allocate.{Os, get_per_sc, count_super_page}
use sanitizers.Allocator.Allocate.Pages.{range_capacity, page_at}
use sanitizers.Allocator.Allocate.Outcomes.{Given, Known, OtherSlots}
use sanitizers.Tags.{Target}
use sanitizers.Tags.Frames.{KeepsTags}
use sanitizers.Layout.{super_page_size}
use sanitizers.Allocator.Allocate.Fresh.{IsSpare, Cleared, SameElsewhere}
use sanitizers.Allocator.Allocate.Tagged.{IsGranting}

-- The allocator before a call: the table is filled, what the thread has cached for each class is in
-- range, and each range has room for a super page.
pub record IsReady (os : Os) (env : Env) (w : World) : Type 0 where
  pub filled : env.descrs ≡ filled_descrs
  pub few : env.target.config.use_aliases ≤ 4
  pub granting : IsGranting os
  pub slots : length w.local.per_sc ≡ num_size_classes
  pub hints :
      (sc : ℕ)
      → sc < num_size_classes
      → (get_per_sc w sc).last_idx_hint ≤ (class_at filled_descrs sc).num_chunks
  pub cached :
      (sc : ℕ)
      → sc < num_size_classes
      → ((get_per_sc w sc).sp ≡ 0) ⊎ IsPlaced (get_per_sc w sc).sp (class_at filled_descrs sc)
  pub room0 : w.allocator.num_super_pages0 < range_capacity
  pub room1 : w.allocator.num_super_pages1 < range_capacity
  pub spare : IsSpare w.mem w.allocator.num_super_pages1

-- The world that the chunk is taken from: that of the call, or one with a new super page.
pub data Prepared (t : Target) (d : SizeClassDescr) (sc : ℕ) (w w0 : World) : Type 0 where
  as_is : w0.mem ≡ w.mem → w0.allocator ≡ w.allocator → Prepared t d sc w w0
  with_page :
      (n : ℕ)
      → n < range_capacity
      → get_num_super_pages w.allocator d.range_num ≡ n
      → w0.allocator ≡ count_super_page w.allocator d.range_num
      → w0.mem (get_shadow_ptr super_page_metadata (page_at d.range_num n)) ≡ sc
      → Cleared (page_at d.range_num n) w0.mem
      → SameElsewhere (page_at d.range_num n) w.mem w0.mem
      → KeepsTags t (page_at d.range_num n) (page_at d.range_num n + super_page_size) w.mem w0.mem
      → Prepared t d sc w w0

-- A chunk is given to the caller, after a new super page if needed; it is of a super page that
-- `Cached` names or of one of the range.
pub record Served (env : Env) (d : SizeClassDescr) (sc : ℕ) (Cached : ℕ → Type 0) (w : World)
    (ptr : ℕ) (w' : World) : Type 0 where
  pub w0 : World
  pub prepared : Prepared env.target d sc w w0
  pub slots : length w0.local.per_sc ≡ length w.local.per_sc
  pub others : OtherSlots sc w w0
  pub given : Given env d sc (λ sp. Cached sp ⊎ Known d sc w0 sp) w0 ptr w'
