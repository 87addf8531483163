-- ===== src/Session/Grows.antt =====
-- `AllocateSuperPage` keeps the invariant of the allocator.
use sanitizers.Base.{
  ℕ, ◌+◌, ◌<◌, ◌≤◌, ◌≡◌, ◌≢◌, ◌⊎◌, inl, inr, Bool-cases, ◌==◌, sym, ◌∙◌, arith, add64,
}
use native.Mathlib.Decide.{ℕ_discrete, dec_lt}
use sanitizers.Layout.{super_page_size, second_range_meta_space, meta}
use sanitizers.Shadow.{get_shadow_ptr, super_page_metadata, second_range_meta}
use sanitizers.SizeClass.{num_size_classes}
use sanitizers.SizeClass.Filled.{filled_descrs}
use sanitizers.SizeClass.Lookup.{class_at}
use sanitizers.SizeClass.Shape.{class_at-IsDescr}
use sanitizers.SuperPage.{Env}
use sanitizers.SuperPage.Chunk.{
  IsPlaced, in_space, state_outside_chunks, chunk_end, address_of_chunk_lem, chunk-InAllocator,
}
use sanitizers.SuperPage.Meta.{meta_slot, IsSuperPage-kept}
use sanitizers.Allocator.State.{World, Allocator, get_num_super_pages}
use sanitizers.Allocator.Allocate.{count_super_page}
use sanitizers.Allocator.Allocate.Pages.{range_capacity, page_at, page_at-IsPlaced, meta_lem}
use sanitizers.Allocator.Allocate.Fresh.{IsSpare, Cleared, SameElsewhere}
use sanitizers.Allocator.Scans.Pointers.{few_pages}
use sanitizers.Allocator.Scans.Ranges.{pages_of}
use sanitizers.Allocator.Scans.Safety.{IsWorldHeap}
use sanitizers.Allocator.Scans.Sweeps.{state_at, address_at}
use sanitizers.Tags.Frames.{KeepsTags}
use sanitizers.Session.Frames.{Kept, KeepsClasses, KeepsContents, chunk_high}
use sanitizers.Session.Classes.{IsSuperPage-class}

count_super_page_lem :
    (a : Allocator) (r n : ℕ)
    → r ≤ 1
    → n < range_capacity
    → get_num_super_pages a r ≡ n
    → a.num_super_pages0 ≤ range_capacity
    → a.num_super_pages1 ≤ range_capacity
    → (a.num_super_pages0 ≤ (count_super_page a r).num_super_pages0)
      × (a.num_super_pages1 ≤ (count_super_page a r).num_super_pages1)
      × ((count_super_page a r).num_super_pages0 ≤ range_capacity)
      × ((count_super_page a r).num_super_pages1 ≤ range_capacity)
      × ((r' i : ℕ)
          → r' ≤ 1
          → i
            < pages_of
                (count_super_page a r).num_super_pages0
                (count_super_page a r).num_super_pages1
                r'
          → (i < pages_of a.num_super_pages0 a.num_super_pages1 r') ⊎ ((r' ≡ r) × (i ≡ n)))
count_super_page_lem a r n two room count few0 few1 = elim (Bool-cases (r == 0)) [
  | inl first ↦
      let now : a.num_super_pages0 ≡ n = rw first at count in
      rw first (
        omega arith,
        omega arith,
        omega arith,
        few1,
        λ r' i two' known. elim (Bool-cases (r' == 0)) [
          | inl zero_range ↦
              let small = rw zero_range at known in
              rw zero_range (elim (ℕ_discrete i n) [
                | yes new ↦ inr (ground arith, new)
                | no old ↦ inl (omega (arith, small, now, old))
              ])
          | inr other ↦ let same = rw other at known in rw other (inl same)
        ],
      )
  | inr second ↦
      let now : a.num_super_pages1 ≡ n = rw second at count in
      rw second (
        omega arith,
        omega arith,
        few0,
        omega arith,
        λ r' i two' known. elim (Bool-cases (r' == 0)) [
          | inl zero_range ↦ let same = rw zero_range at known in rw zero_range (inl same)
          | inr other ↦
              let small = rw other at known in
              rw other (elim (ℕ_discrete i n) [
                | yes new ↦ inr (ground arith, new)
                | no old ↦ inl (omega (arith, small, now, old))
              ])
        ],
      )
]

slots_apart :
    (r i r' i' : ℕ)
    → r ≤ 1
    → r' ≤ 1
    → i < range_capacity
    → i' < range_capacity
    → ¬ ((r' ≡ r) × (i' ≡ i))
    → (get_shadow_ptr super_page_metadata (page_at r' i')
        ≢ get_shadow_ptr super_page_metadata (page_at r i))
      × (page_at r' i' ≢ page_at r i)
slots_apart r i r' i' two two' few few' ne =
    let slot = meta_lem r i two few in
    let slot' = meta_lem r' i' two' few' in
    (
      λ e.
          let e' : add64 (meta r') i' ≡ add64 (meta r) i = slot' ∙ e ∙ sym slot in
          ne (ground arith),
      λ e. ne (ground arith),
    )

-- The spare states that stand behind one super page more are spare.
pub spare_start :
    (n n' : ℕ)
    → n ≤ n'
    → n' ≤ range_capacity
    → (get_shadow_ptr second_range_meta (page_at 1 n)
        ≤ get_shadow_ptr second_range_meta (page_at 1 n'))
      × (second_range_meta_space ≤ get_shadow_ptr second_range_meta (page_at 1 n))
unfolding get_shadow_ptr
spare_start n n' le few = omega arith

module _ (env : Env) (w w0 : World) (sc n : ℕ) (inside : sc < num_size_classes)
    (filled : env.descrs ≡ filled_descrs) (heap : IsWorldHeap env w) (room : n < range_capacity)
    (count : get_num_super_pages w.allocator (class_at filled_descrs sc).range_num ≡ n)
    (counted : w0.allocator ≡ count_super_page w.allocator (class_at filled_descrs sc).range_num)
    (class : w0.mem
        (get_shadow_ptr super_page_metadata (page_at (class_at filled_descrs sc).range_num n))
      ≡ sc)
    (cleared : Cleared (page_at (class_at filled_descrs sc).range_num n) w0.mem)
    (elsewhere : SameElsewhere (page_at (class_at filled_descrs sc).range_num n) w.mem w0.mem)
    (tags : KeepsTags env.target
      (page_at (class_at filled_descrs sc).range_num n)
      (page_at (class_at filled_descrs sc).range_num n + super_page_size)
      w.mem
      w0.mem) where
  placed : IsPlaced (page_at (class_at filled_descrs sc).range_num n) (class_at filled_descrs sc)
  placed = page_at-IsPlaced n (class_at-IsDescr sc inside) room

  counts :
      (w.allocator.num_super_pages0 ≤ w0.allocator.num_super_pages0)
      × (w.allocator.num_super_pages1 ≤ w0.allocator.num_super_pages1)
      × (w0.allocator.num_super_pages0 ≤ range_capacity)
      × (w0.allocator.num_super_pages1 ≤ range_capacity)
      × ((r i : ℕ)
          → r ≤ 1
          → i < pages_of w0.allocator.num_super_pages0 w0.allocator.num_super_pages1 r
          → (i < pages_of w.allocator.num_super_pages0 w.allocator.num_super_pages1 r)
            ⊎ ((r ≡ (class_at filled_descrs sc).range_num) × (i ≡ n)))
  counts = rw counted (
      count_super_page_lem w.allocator (class_at filled_descrs sc).range_num n
        (class_at-IsDescr sc inside).two_ranges room count heap.few0 heap.few1)

  -- A super page that was known is another one.
  old_page :
      (r i : ℕ)
      → r ≤ 1
      → i < pages_of w.allocator.num_super_pages0 w.allocator.num_super_pages1 r
      → (get_shadow_ptr super_page_metadata (page_at r i)
          ≢ get_shadow_ptr super_page_metadata (page_at (class_at filled_descrs sc).range_num n))
        × (page_at r i ≢ page_at (class_at filled_descrs sc).range_num n)
  old_page r i two known =
      slots_apart (class_at filled_descrs sc).range_num n r i
        (class_at-IsDescr sc inside).two_ranges two room
        (few_pages env w.mem w.allocator.num_super_pages0 w.allocator.num_super_pages1 heap r i
          known)
        (λ (same_range, same_idx).
          let known' : n
              < pages_of w.allocator.num_super_pages0 w.allocator.num_super_pages1
                  (class_at filled_descrs sc).range_num =
            rw (same_range, same_idx) at known in
          omega (arith, known', count))

  pub grown-KeepsClasses :
      KeepsClasses w.allocator.num_super_pages0 w.allocator.num_super_pages1 w.mem w0.mem
  grown-KeepsClasses r i two known =
      let (d', page) = heap.pages r i two known in
      elsewhere (get_shadow_ptr super_page_metadata (page_at r i))
        (omega (arith, meta_slot page.place))
        (inr (omega (arith, meta_slot page.place, in_space placed))) (old_page r i two known).0

  pub grown-IsHeap : IsWorldHeap env w0
  grown-IsHeap = record {
    few0 = counts.2;
    few1 = counts.3;
    pages = λ r i two known. elim (counts.4 r i two known) [
      | inl old ↦
          let (d', page) = heap.pages r i two old in
          (d', IsSuperPage-kept page (grown-KeepsClasses r i two old))
      | inr (same_range, same_idx) ↦
          rw (same_range, same_idx)
            (class_at filled_descrs sc, IsSuperPage-class env w0.mem filled placed class)
    ];
    bytes = λ a high.
        elim (ℕ_discrete a
          (get_shadow_ptr super_page_metadata (page_at (class_at filled_descrs sc).range_num n))) [
            | yes at_slot ↦ rw (at_slot, class) (omega (arith, inside))
            | no other ↦ elim (dec_lt a (page_at (class_at filled_descrs sc).range_num n)) [
              | yes before ↦ rw (elsewhere a high (inl before) other) (heap.bytes a high)
              | no behind ↦
                  elim (dec_lt a
                    (page_at (class_at filled_descrs sc).range_num n + super_page_size)) [
                      | yes within ↦ rw (cleared a (omega (arith, behind)) within) (omega arith)
                      | no past ↦
                          rw (elsewhere a high (inr (omega (arith, past))) other)
                            (heap.bytes a high)
                    ]
            ]
          ];
  }

  pub grown-IsSpare :
      IsSpare w.mem w.allocator.num_super_pages1 → IsSpare w0.mem w0.allocator.num_super_pages1
  grown-IsSpare spare b lo hi =
      let (start, high) =
        spare_start w.allocator.num_super_pages1 w0.allocator.num_super_pages1 counts.1 counts.3 in
      elsewhere b (omega (arith, start, high, lo))
        (inr (omega (arith, start, high, lo, in_space placed)))
        (λ e. omega (arith, e, start, high, lo, meta_slot placed))
      ∙ spare b (omega (arith, start, lo)) hi

  pub grown-Kept : Kept env w w0 (λ a. ⊥)
  grown-Kept = record {
    more0 = counts.0;
    more1 = counts.1;
    classes = grown-KeepsClasses;
    used = λ l in_use out.
        let (lower, upper) = state_outside_chunks l.page.place l.chunk l.below in
        let (space, finish) = in_space l.page.place in
        let other = (old_page l.range_num l.idx l.two l.known).1 in
        elsewhere (state_at l) (omega (arith, lower, space))
          (elim upper [
            | inl in_page ↦
                elim (dec_lt (page_at l.range_num l.idx)
                  (page_at (class_at filled_descrs sc).range_num n)) [
                    | yes before ↦
                        inl (omega (arith, in_page, before, l.page.place.aligned, placed.aligned))
                    | no behind ↦
                        inr (
                          omega (arith, lower, behind, other, l.page.place.aligned, placed.aligned))
                  ]
            | inr far ↦ inr (omega (arith, far, in_space placed))
          ])
          (λ e. omega (arith, e, lower, upper, meta_slot placed, space, finish));
    tags = λ l in_use out u.
        let other = (old_page l.range_num l.idx l.two l.known).1 in
        let inside_page = chunk_end l.page.place l.chunk l.below in
        let here = address_of_chunk_lem l.page.place l.chunk l.below in
        tags u (address_at l) (chunk-InAllocator l.page.place l.chunk l.below)
          (elim (dec_lt (page_at l.range_num l.idx)
            (page_at (class_at filled_descrs sc).range_num n)) [
              | yes before ↦ inl (
                  omega (
                    arith, here, inside_page, before, l.page.place.aligned, placed.aligned,
                    l.page.place.descr.size_pos,
                  ))
              | no behind ↦
                  inr (omega (arith, here, behind, other, l.page.place.aligned, placed.aligned))
            ]);
  }

  pub grown-KeepsContents : KeepsContents env w w0 (λ a. ⊥)
  grown-KeepsContents l in_use out a lo hi =
      let other = (old_page l.range_num l.idx l.two l.known).1 in
      let inside_page = chunk_end l.page.place l.chunk l.below in
      let here = address_of_chunk_lem l.page.place l.chunk l.below in
      let (space, end_space) = in_space l.page.place in
      elsewhere a (chunk_high l a lo)
        (elim (dec_lt (page_at l.range_num l.idx)
          (page_at (class_at filled_descrs sc).range_num n)) [
            | yes before ↦
                inl (
                  omega
                    (arith, hi, here, inside_page, before, l.page.place.aligned, placed.aligned))
            | no behind ↦
                inr (omega (arith, lo, here, behind, other, l.page.place.aligned, placed.aligned))
          ])
        (λ e. omega (arith, e, hi, here, inside_page, end_space, meta_slot placed))
