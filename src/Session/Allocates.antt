-- ===== src/Session/Allocates.antt =====
-- The invariant is enough for an allocation, and holds of the world that the chunk is taken from.
use sanitizers.Base.{Mem, ℕ, ◌+◌, ◌<◌, ◌≤◌, ◌≡◌, inl, inr, Bool-cases, ◌==◌, sym, ap, ◌∙◌, arith}
use sanitizers.Shadow.{get_shadow_ptr, super_page_metadata}
use sanitizers.SizeClass.{SizeClassDescr, num_size_classes}
use sanitizers.SizeClass.Filled.{filled_descrs}
use sanitizers.SizeClass.Lookup.{class_at}
use sanitizers.SizeClass.Shape.{class_at-IsDescr}
use sanitizers.SuperPage.{Env}
use sanitizers.Allocator.State.{Allocator, World}
use sanitizers.Allocator.Allocate.{Os, count_super_page}
use sanitizers.Allocator.Allocate.Pages.{range_capacity, page_at, page_at-IsPlaced}
use sanitizers.Allocator.Allocate.Fresh.{IsSpare}
use sanitizers.Allocator.Allocate.Tagged.{IsGranting}
use sanitizers.Allocator.Allocate.Outcomes.{Known}
use sanitizers.Allocator.Allocate.Served.{Prepared, as_is, with_page}
use sanitizers.Allocator.Allocate.Served.{IsReady}
use sanitizers.Allocator.Scans.Safety.{IsWorldHeap, WorldLocated}
use sanitizers.Session.Classes.{IsSuperPage-class}
use sanitizers.Session.Grows.{grown-IsHeap, grown-IsSpare, grown-Kept, grown-KeepsContents}
use sanitizers.Session.{TakesFew, IsAllocator, HasRoom}
use sanitizers.Session.Frames.{KeepsContents, Kept, more_pages, Kept-same}

-- The invariant is enough for an allocation, where there is room.
pub IsAllocator-IsReady :
    (os : Os) {env : Env} {w : World}
    → IsGranting os
    → env.target.config.use_aliases ≤ 4
    → HasRoom w
    → IsAllocator env w
    → IsReady os env w
IsAllocator-IsReady os {env} {w} granting few room inv = record {
  filled = inv.filled;
  few = few;
  granting = granting;
  slots = inv.slots;
  hints = inv.hints;
  cached = λ sc inside. elim (inv.cached sc inside) [
    | inl empty ↦ inl empty
    | inr (i, known, at_sp, _) ↦
        let descr = class_at-IsDescr sc inside in
        let low : i < range_capacity =
          elim (Bool-cases ((class_at filled_descrs sc).range_num == 0)) [
            | inl first_range ↦ omega (arith, rw first_range at known, inv.heap.few0)
            | inr second_range ↦ omega (arith, rw second_range at known, inv.heap.few1)
          ] in
        inr (rw at_sp (page_at-IsPlaced i descr low))
  ];
  room0 = room.room0;
  room1 = room.room1;
  spare = inv.spare;
}

-- The chunk of a search, among those of the world it was taken from.
abbrev pub given_place :
    (env : Env) (w0 : World) {sc : ℕ} (sp chunk : ℕ)
    → env.descrs ≡ filled_descrs
    → IsWorldHeap env w0
    → sc < num_size_classes
    → Known (class_at filled_descrs sc) sc w0 sp
    → chunk < (class_at filled_descrs sc).num_chunks
    → WorldLocated env w0
given_place env w0 {sc} sp chunk filled heap inside (i, known, at_sp, class) below =
    let d = class_at filled_descrs sc in
    let descr = class_at-IsDescr sc inside in
    let low : i < range_capacity = elim (Bool-cases ((class_at filled_descrs sc).range_num == 0)) [
      | inl first_range ↦ omega (arith, rw first_range at known, heap.few0)
      | inr second_range ↦ omega (arith, rw second_range at known, heap.few1)
    ] in
    let class' : w0.mem (get_shadow_ptr super_page_metadata (page_at d.range_num i)) ≡ sc =
      ap (λ p. w0.mem (get_shadow_ptr super_page_metadata p)) (sym at_sp) ∙ class in
    record {
      range_num = d.range_num;
      idx = i;
      d = d;
      chunk = chunk;
      two = descr.two_ranges;
      known = known;
      page = IsSuperPage-class env w0.mem filled (page_at-IsPlaced i descr low) class';
      below = below;
    }

-- A page that a class knows stays known.
pub Known-kept :
    (env : Env) (d : SizeClassDescr) (sc : ℕ) {Freed : ℕ → Type 0} (w w' : World) (sp : ℕ)
    → d.range_num ≤ 1
    → Kept env w w' Freed
    → Known d sc w sp
    → Known d sc w' sp
Known-kept env d sc w w' sp two k (i, known, at_sp, class) = (
  i,
  more_pages {n0 = w.allocator.num_super_pages0} {n1 = w.allocator.num_super_pages1} d.range_num i
      k.more0 k.more1 known,
  at_sp,
  let same =
        ap (λ p. w'.mem (get_shadow_ptr super_page_metadata p)) at_sp
        ∙ k.classes d.range_num i two known
        ∙ ap (λ p. w.mem (get_shadow_ptr super_page_metadata p)) (sym at_sp) in
      same ∙ class,
)

-- The world that the chunk is taken from has the invariant, and keeps all used chunks.
pub record IsReadied (env : Env) (w w0 : World) : Type 0 where
  pub heap : IsWorldHeap env w0
  pub spare : IsSpare w0.mem w0.allocator.num_super_pages1
  pub kept : Kept env w w0 (λ a. ⊥)
  pub contents : KeepsContents env w w0 (λ a. ⊥)
  pub few : TakesFew w w0

TakesFew-counted :
    (a : Allocator) (r : ℕ)
    → a.num_super_pages0 ≤ range_capacity
    → a.num_super_pages1 ≤ range_capacity
    → (a.num_super_pages0 ≤ (count_super_page a r).num_super_pages0)
      × (a.num_super_pages1 ≤ (count_super_page a r).num_super_pages1)
      × ((count_super_page a r).num_super_pages0 + (count_super_page a r).num_super_pages1
          ≤ a.num_super_pages0 + a.num_super_pages1 + 1)
TakesFew-counted a r few0 few1 = elim (Bool-cases (r == 0)) [
  | inl zero_range ↦ rw zero_range (omega arith, omega arith, omega arith)
  | inr other ↦ rw other (omega arith, omega arith, omega arith)
]

pub Prepared-IsReadied :
    {env : Env} {w w0 : World} {sc : ℕ}
    → sc < num_size_classes
    → IsAllocator env w
    → Prepared env.target (class_at filled_descrs sc) sc w w0
    → IsReadied env w w0
Prepared-IsReadied {env} {w} {w0} inside inv (as_is mem allocator) = record {
  heap = rw (mem, allocator) inv.heap;
  spare = rw (mem, allocator) inv.spare;
  kept =
      Kept-same env w w0 mem (ap (λ (a : Allocator). a.num_super_pages0) allocator)
        (ap (λ (a : Allocator). a.num_super_pages1) allocator);
  contents = λ l in_use out a lo hi. ap (λ (m : Mem). m a) mem;
  few = rw allocator (omega arith, omega arith, omega arith);
}
Prepared-IsReadied {env} {w} {w0} {sc} inside inv
      (with_page n room count counted class cleared elsewhere tags) =
    record {
      heap =
          grown-IsHeap env w w0 sc n inside inv.filled inv.heap room count counted class cleared
            elsewhere tags;
      spare =
          grown-IsSpare env w w0 sc n inside inv.filled inv.heap room count counted class cleared
            elsewhere tags inv.spare;
      kept =
          grown-Kept env w w0 sc n inside inv.filled inv.heap room count counted class cleared
            elsewhere tags;
      contents =
          grown-KeepsContents env w w0 sc n inside inv.filled inv.heap room count counted class
            cleared elsewhere tags;
      few = rw counted (
          TakesFew-counted w.allocator (class_at filled_descrs sc).range_num inv.heap.few0
            inv.heap.few1);
    }
