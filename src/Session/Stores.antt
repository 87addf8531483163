-- ===== src/Session/Stores.antt =====
-- One state of a chunk changes.
use sanitizers.Session.Frames.{KeepsClasses, KeepsUsed}
use sanitizers.Base.{Mem, ℕ, ◌^◌, ◌<◌, ◌≤◌, ◌≡◌, ◌≢◌, ap, ◌∙◌, arith}
use native.Mathlib.Decide.{ℕ_discrete}
use sanitizers.Layout.{second_range_meta_space}
use sanitizers.Shadow.{get_shadow_ptr, super_page_metadata, second_range_meta}
use sanitizers.SuperPage.{Env}
use sanitizers.SuperPage.Free.{KeepsBut}
use sanitizers.SuperPage.Chunk.{in_space, state_in_page, state_outside_chunks}
use sanitizers.SuperPage.Meta.{meta_slot, few_chunks, second_states, IsSuperPage-kept}
use sanitizers.Allocator.Allocate.Pages.{range_capacity, page_at}
use sanitizers.Allocator.Allocate.Fresh.{IsSpare}
use sanitizers.Allocator.Scans.Pointers.{IsHeap, few_pages}
use sanitizers.Allocator.Scans.Ranges.{pages_of}
use sanitizers.Allocator.Scans.Sweeps.{Located, state_at}

spare_high :
    (n1 : ℕ)
    → n1 ≤ range_capacity
    → second_range_meta_space ≤ get_shadow_ptr second_range_meta (page_at 1 n1)
unfolding get_shadow_ptr
spare_high n1 few = omega arith

module _ (env : Env) (m : Mem) (n0 n1 : ℕ) (heap : IsHeap env m n0 n1) where
  pub IsHeap-kept :
      (m' : Mem)
      → KeepsClasses n0 n1 m m'
      → ((a : ℕ) → 0x5000_0000_0000 ≤ a → m' a < 2 ^ 8)
      → IsHeap env m' n0 n1
  IsHeap-kept m' classes bytes = record {
    few0 = heap.few0;
    few1 = heap.few1;
    pages = λ r i two known.
        let (d, page) = heap.pages r i two known in
        (d, IsSuperPage-kept page (classes r i two known));
    bytes = bytes;
  }

  pub slot_high :
      (r i : ℕ)
      → r ≤ 1
      → i < pages_of n0 n1 r
      → 0x5000_0000_0000 ≤ get_shadow_ptr super_page_metadata (page_at r i)
  slot_high r i two known =
      let (d, page) = heap.pages r i two known in omega (arith, meta_slot page.place)

  -- The state of a chunk is not the class of a super page.
  pub slot_not_state :
      (l : Located env m n0 n1) (r i : ℕ)
      → r ≤ 1
      → i < pages_of n0 n1 r
      → get_shadow_ptr super_page_metadata (page_at r i) ≢ state_at l
  slot_not_state l r i two known e =
      let (d, page) = heap.pages r i two known in
      omega (
        arith,
        e,
        meta_slot page.place,
        state_outside_chunks l.page.place l.chunk l.below,
        in_space l.page.place,
      )

  -- The states of known super pages lie before the spare ones.
  pub state_not_spare :
      (l : Located env m n0 n1) → state_at l < get_shadow_ptr second_range_meta (page_at 1 n1)
  unfolding get_shadow_ptr
  state_not_spare l = elim (ℕ_discrete l.d.range_num 1) [
    | yes second ↦
        let start = second_states l.page.place second in
        let few = few_chunks l.page.place.descr second in
        elim (ℕ_discrete l.range_num 0) [
          | yes zero_range ↦
              let high = rw second at l.page.place.lower in
              let low : l.idx < range_capacity =
                few_pages env m n0 n1 heap l.range_num l.idx l.known in
              let placed = rw zero_range at high in absurd (omega (arith, placed, low))
          | no first_range ↦
              let one : l.range_num ≡ 1 = omega (arith, first_range, l.two) in
              let known : l.idx < n1 = rw one at l.known in
              omega (arith, start, few, l.below, known, heap.few1, ap (λ r. page_at r l.idx) one)
        ]
    | no other ↦
        let (lower, upper) = state_in_page l.page.place l.chunk l.below other in
        omega (arith, upper, in_space l.page.place, heap.few1)
  ]

  -- One state changes, to some byte.
  module _ (l : Located env m n0 n1) (m' : Mem) (keeps : KeepsBut m m' (state_at l))
      (small : m' (state_at l) < 2 ^ 8) where
    pub classes_but : KeepsClasses n0 n1 m m'
    classes_but r i two known =
        keeps (get_shadow_ptr super_page_metadata (page_at r i)) (slot_high r i two known)
          (slot_not_state l r i two known)

    pub IsHeap-but : IsHeap env m' n0 n1
    IsHeap-but = IsHeap-kept m' classes_but (λ a high. elim (ℕ_discrete a (state_at l)) [
      | yes here ↦ rw here small
      | no there ↦ rw (keeps a high there) (heap.bytes a high)
    ])

    pub IsSpare-but : IsSpare m n1 → IsSpare m' n1
    IsSpare-but spare b lo hi =
        let past = state_not_spare l in
        let high : second_range_meta_space ≤ get_shadow_ptr second_range_meta (page_at 1 n1) =
          spare_high n1 heap.few1 in
        keeps b (omega (arith, high)) (λ e. omega (arith, e, past)) ∙ spare b lo hi

    pub used_but : KeepsUsed env n0 n1 m m' (λ a. a ≡ state_at l)
    used_but l' in_use ne =
        keeps (state_at l')
          (omega (
            arith,
            (state_outside_chunks l'.page.place l'.chunk l'.below).0,
            in_space l'.page.place,
          ))
          ne
