-- ===== src/Allocator/Allocate/Pages.antt =====
-- The super pages of a range, by their index.
use sanitizers.Base.{ℕ, ◌+◌, ◌*◌, ◌^◌, ◌≡◌, ◌<◌, ◌≤◌, ok, refl, add64, mul64, arith, lt→leb, false}
use sanitizers.Layout.{super_page_size, first_super_page, meta, allocator_space, allocator_size}
use sanitizers.Shadow.{get_shadow_ptr, super_page_metadata}
use sanitizers.SizeClass.{SizeClassDescr}
use sanitizers.SizeClass.Shape.{IsDescr}
use sanitizers.SuperPage.Chunk.{IsPlaced}
use sanitizers.Allocator.{get_super_page, leb}

-- The number of super pages that fit a range.
abbrev pub range_capacity : ℕ
range_capacity = 2 ^ 17

abbrev pub page_at : ℕ → ℕ → ℕ
page_at range_num idx = first_super_page range_num + idx * super_page_size

pub get_super_page_lem :
    (range_num idx : ℕ)
    → range_num ≤ 1
    → idx < range_capacity
    → get_super_page range_num idx ≡ ok (page_at range_num idx)
unfolding get_super_page
get_super_page_lem range_num idx two h =
    let e : add64 (first_super_page range_num) (mul64 idx super_page_size) ≡ page_at range_num idx =
      ground arith in
    let below : page_at range_num idx < allocator_space + allocator_size = ground arith in
    let fits : leb (allocator_space + allocator_size) (page_at range_num idx) ≡ false =
      lt→leb _ _ below in
    rw (e, fits) refl

pub page_at-IsPlaced :
    {d : SizeClassDescr} (idx : ℕ)
    → IsDescr d
    → idx < range_capacity
    → IsPlaced (page_at d.range_num idx) d
page_at-IsPlaced {d} idx descr h =
    let two = descr.two_ranges in
    record { descr = descr; aligned = ground arith; lower = omega arith; upper = omega arith }

-- The byte that the search of `AllocateSlower` reads is the one that `GetSizeClass` reads.
pub meta_lem :
    (range_num idx : ℕ)
    → range_num ≤ 1
    → idx < range_capacity
    → add64 (meta range_num) idx ≡ get_shadow_ptr super_page_metadata (page_at range_num idx)
unfolding get_shadow_ptr
meta_lem range_num idx two h = ground arith
