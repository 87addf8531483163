-- ===== src/Session/Frees.antt =====
-- Frees keep the invariant of the allocator and the blocks that are not freed.
use sanitizers.Base.{
  ==_refl, ok-injective, Mem, ok, ◌&&◌, ◌==◌, ℕ, ◌+◌, ◌%◌, ◌^◌, ◌<◌, ◌≡◌, inl, inr, true, refl, sym,
  ap, ◌∙◌, arith,
}
use sanitizers.SuperPage.{Env, address_of_chunk}
use sanitizers.SuperPage.State.{available}
use sanitizers.SuperPage.Chunk.{chunk-InAllocator}
use sanitizers.SuperPage.Retags.{if_ok}
use sanitizers.Allocator.Retags.{allocator_deallocate-KeepsTags, allocator_quarantine-KeepsTags}
use sanitizers.Tags.Frames.{KeepsTags}
use sanitizers.Allocator.Scans.Sweeps.{address_at}
use sanitizers.SizeClass.{chunk_size}
use sanitizers.Session.Apartness.{located_apart}
use sanitizers.SuperPage.Free.{is_used, KeepsBut, state_on_free-byte}
use sanitizers.SizeClass.Filled.{filled_descrs}
use sanitizers.SizeClass.Lookup.{class_at}
use sanitizers.SizeClass.Shape.{class_at-IsDescr}
use sanitizers.Tags.Memory.{get_memory_tag_total}
use sanitizers.Allocator.{allocator_deallocate, allocator_quarantine}
use sanitizers.Allocator.State.{World}
use sanitizers.Allocator.Untag.{UsesAliases}
use sanitizers.Allocator.Frees.{allocator_deallocate-chunk, allocator_quarantine-chunk}
use sanitizers.Allocator.Allocate.{get_per_sc}
use sanitizers.Allocator.Allocate.Fresh.{IsSpare}
use sanitizers.Allocator.Allocate.Pages.{page_at}
use sanitizers.Allocator.Scans.Safety.{IsWorldHeap, WorldLocated}
use sanitizers.Allocator.Scans.Sweeps.{state_at}
use sanitizers.Session.{Block, IsAllocator, IsHeld}
use sanitizers.Session.Frames.{KeepsContents, chunk_high, state_plain, Kept}
use sanitizers.Session.Stores.{IsHeap-but, classes_but, used_but, IsSpare-but}
use sanitizers.Session.Allocates.{Known-kept}

-- The invariant of the allocator where what the thread keeps is the same.
pub IsAllocator-kept :
    {env : Env} {w w' : World} {Freed : ℕ → Type 0}
    → IsAllocator env w
    → w'.local.per_sc ≡ w.local.per_sc
    → IsWorldHeap env w'
    → IsSpare w'.mem w'.allocator.num_super_pages1
    → Kept env w w' Freed
    → IsAllocator env w'
IsAllocator-kept {env} {w} {w'} inv slots heap spare k = record {
  filled = inv.filled;
  heap = heap;
  slots = rw slots inv.slots;
  hints = λ sc inside. rw slots (inv.hints sc inside);
  cached = λ sc inside. rw slots (elim (inv.cached sc inside) [
    | inl empty ↦ inl empty
    | inr known ↦ inr (
        Known-kept env (class_at filled_descrs sc) sc w w' (get_per_sc w sc).sp
          (class_at-IsDescr sc inside).two_ranges k known)
  ]);
  spare = spare;
}

-- What a step keeps that frees the chunk whose state is at `a`: the rest, with its bytes.
abbrev pub FreesOnly : Env → World → ℕ → World → Type 0
FreesOnly env w a w' =
    IsAllocator env w' × Kept env w w' (λ b. b ≡ a) × KeepsContents env w w' (λ b. b ≡ a)

-- One state changes.
state_changes :
    (env : Env) (w w' : World) (l : WorldLocated env w)
    → IsAllocator env w
    → w'.allocator ≡ w.allocator
    → w'.local.per_sc ≡ w.local.per_sc
    → KeepsBut w.mem w'.mem (state_at l)
    → w'.mem (state_at l) < 2 ^ 8
    → KeepsTags env.target (address_at l) (address_at l + chunk_size l.d) w.mem w'.mem
    → FreesOnly env w (state_at l) w'
state_changes env w w' l inv allocator slots keeps small tags =
    let n0 = w.allocator.num_super_pages0 in
    let n1 = w.allocator.num_super_pages1 in
    let k : Kept env w w' (λ b. b ≡ state_at l) = record {
      more0 = rw allocator (omega arith);
      more1 = rw allocator (omega arith);
      classes = classes_but env w.mem n0 n1 inv.heap l w'.mem keeps small;
      used = used_but env w.mem n0 n1 inv.heap l w'.mem keeps small;
      tags = λ l' in_use out u.
          tags u (address_at l') (chunk-InAllocator l'.page.place l'.chunk l'.below)
            (located_apart l l' (λ e. out (sym e)));
    } in
    (
      IsAllocator-kept inv slots
          (rw allocator (IsHeap-but env w.mem n0 n1 inv.heap l w'.mem keeps small))
          (rw allocator (IsSpare-but env w.mem n0 n1 inv.heap l w'.mem keeps small inv.spare)) k,
      k,
      λ l' in_use out a lo hi. keeps a (chunk_high l' a lo) (state_plain l' l a lo hi),
    )

pub allocator_deallocate-FreesOnly :
    (env : Env) (w : World) (m' : Mem) {b : Block}
    → UsesAliases env.target
    → IsAllocator env w
    → (h : IsHeld env w b) → allocator_deallocate env w.mem b.0 ≡ ok m'
    → FreesOnly env w (state_at h.place) (record w { mem = m' })
allocator_deallocate-FreesOnly env w m' {b} u inv h eq =
    let l = h.place in
    let (stored, read) =
      get_memory_tag_total env.target w.mem
        (address_of_chunk (page_at l.range_num l.idx) l.chunk l.d)
        (chunk-InAllocator l.page.place l.chunk l.below) in
    let (m1, freed, now, keeps) =
      allocator_deallocate-chunk env w.mem u l.page l.below h.small read in
    let same : m1 ≡ m' =
      if_ok _ m1 m' (sym freed ∙ ap (allocator_deallocate env w.mem) (sym h.pointer) ∙ eq) in
    let keeps' : KeepsBut w.mem m' (state_at l) = rw same at keeps in
    let now' : m' (state_at l) ≡ available = rw same at now in
    state_changes env w (record w { mem = m' }) l inv refl refl keeps' (rw now' (omega arith))
      (allocator_deallocate-KeepsTags env u w.mem l.page l.chunk l.below h.tag h.small m'
        (ap (allocator_deallocate env w.mem) (sym h.pointer) ∙ eq))

pub allocator_quarantine-FreesOnly :
    (env : Env) (w w' : World) {b : Block}
    → UsesAliases env.target
    → IsAllocator env w
    → (h : IsHeld env w b) → allocator_quarantine env w b.0 ≡ ok w'
    → FreesOnly env w (state_at h.place) w'
allocator_quarantine-FreesOnly env w w' {b} u inv h eq =
    let l = h.place in
    let (stored, w1, read, freed, now, keeps, allocator, slots) =
      allocator_quarantine-chunk env w u l.page l.below h.small in
    let same : w1 ≡ w' =
      if_ok _ w1 w' (sym freed ∙ ap (allocator_quarantine env w) (sym h.pointer) ∙ eq) in
    let small : w1.mem (state_at l) < 2 ^ 8 = rw now (state_on_free-byte _ _) in
    let tags =
      allocator_quarantine-KeepsTags env u w.mem l.page l.chunk l.below h.tag h.small w w' refl
        (ap (allocator_quarantine env w) (sym h.pointer) ∙ eq) in
    state_changes env w w' l inv (rw same at allocator) (rw same at slots) (rw same at keeps)
      (rw same at small) tags

-- The test that a free makes is passed.
test_passed :
    (a b s k : ℕ)
    → a % 2 ^ k ≡ b % 2 ^ k
    → is_used s ≡ true
    → ((a % 2 ^ k == b % 2 ^ k) && is_used s) ≡ true
test_passed a b s k same used = rw (same, ==_refl (b % 2 ^ k), used) refl

-- A free of a block that the program holds succeeds.
pub allocator_deallocate-held :
    (env : Env) (w : World) {b : Block}
    → UsesAliases env.target
    → IsHeld env w b
    → (m' : Mem) × (allocator_deallocate env w.mem b.0 ≡ ok m')
allocator_deallocate-held env w {b} u h =
    let l = h.place in
    let k = env.target.config.use_aliases in
    let (m', freed, _, _) = allocator_deallocate-chunk env w.mem u l.page l.below h.small h.read in
    let passed = test_passed h.tag h.stored (w.mem (state_at l)) k h.same_tag h.used in
    (m', ap (allocator_deallocate env w.mem) h.pointer ∙ freed ∙ rw passed refl)

pub allocator_quarantine-held :
    (env : Env) (w : World) {b : Block}
    → UsesAliases env.target
    → IsHeld env w b
    → (w' : World) × (allocator_quarantine env w b.0 ≡ ok w')
allocator_quarantine-held env w {b} u h =
    let l = h.place in
    let k = env.target.config.use_aliases in
    let (stored, w', read, freed, _, _, _, _) =
      allocator_quarantine-chunk env w u l.page l.below h.small in
    let same : h.stored ≡ stored = ok-injective (sym h.read ∙ read) in
    let passed = test_passed h.tag stored (w.mem (state_at l)) k (rw same at h.same_tag) h.used in
    (w', ap (allocator_quarantine env w) h.pointer ∙ freed ∙ rw passed refl)
