-- ===== src/Session/Frames.antt =====
-- What an operation keeps of the super pages and of the blocks that the program holds.
use sanitizers.Base.{Mem, ℕ, ◌+◌, ◌<◌, ◌≤◌, ◌≡◌, ◌≢◌, true, ap, ◌∙◌, arith}
use sanitizers.Shadow.{get_shadow_ptr, super_page_metadata}
use sanitizers.SizeClass.{chunk_size}
use sanitizers.SuperPage.{Env}
use sanitizers.SuperPage.Free.{is_used}
use sanitizers.SuperPage.Chunk.{address_of_chunk_lem, chunk-InAllocator}
use native.Mathlib.Nat.{mul-le-mul_right}
use sanitizers.Allocator.Scans.Marks.{IsState, chunk-not-IsState}
use sanitizers.SuperPage.Meta.{IsSuperPage-kept}
use sanitizers.Allocator.Allocate.Pages.{page_at}
use sanitizers.Allocator.Scans.Ranges.{pages_of}
use sanitizers.Allocator.Scans.Safety.{WorldLocated}
use sanitizers.Allocator.Scans.Sweeps.{Located, state_at, address_at}
use sanitizers.Tags.{get_memory_tag}
use sanitizers.Tags.Memory.{UsesShadow}
use sanitizers.Allocator.State.{World}
use sanitizers.Session.{IsHeld, Block}

-- The bytes of used chunks, but for those of which `Freed` holds.
abbrev pub KeepsContents : (env : Env) → World → World → (ℕ → Type 0) → Type 0
KeepsContents env w w' Freed =
    (l : WorldLocated env w)
    → is_used (w.mem (state_at l)) ≡ true
    → ¬ Freed (state_at l)
    → (a : ℕ) → address_at l ≤ a
    → a < address_at l + chunk_size l.d
    → w'.mem a ≡ w.mem a

-- No byte of a chunk is a state.
pub chunk_plain :
    {env : Env} {m : Mem} {n0 n1 : ℕ} (l : Located env m n0 n1) (a : ℕ)
    → address_at l ≤ a
    → a < address_at l + chunk_size l.d
    → ¬ IsState env m a
chunk_plain {env} {m} l a lo hi =
    let start = address_of_chunk_lem l.page.place l.chunk l.below in
    let room = mul-le-mul_right (chunk_size l.d) l.below in
    chunk-not-IsState {env = env} {m = m} a l.page (omega (arith, start, lo))
      (omega (arith, start, hi, room))

pub state_plain :
    {env : Env} {m : Mem} {n0 n1 : ℕ} (l l' : Located env m n0 n1) (a : ℕ)
    → address_at l ≤ a
    → a < address_at l + chunk_size l.d
    → a ≢ state_at l'
state_plain l l' a lo hi e = chunk_plain l a lo hi (record {
  sp = page_at l'.range_num l'.idx;
  d = l'.d;
  chunk = l'.chunk;
  page = l'.page;
  below = l'.below;
  at_state = e;
})

pub chunk_high :
    {env : Env} {m : Mem} {n0 n1 : ℕ} (l : Located env m n0 n1) (a : ℕ)
    → address_at l ≤ a
    → 0x5000_0000_0000 ≤ a
chunk_high l a lo = omega (arith, lo, chunk-InAllocator l.page.place l.chunk l.below)

-- The classes of the known super pages.
abbrev pub KeepsClasses : ℕ → ℕ → Mem → Mem → Type 0
KeepsClasses n0 n1 m m' =
    (r i : ℕ)
    → r ≤ 1
    → i < pages_of n0 n1 r
    → m' (get_shadow_ptr super_page_metadata (page_at r i))
      ≡ m (get_shadow_ptr super_page_metadata (page_at r i))

-- The states of used chunks, but for those of which `Freed` holds.
abbrev pub KeepsUsed : (env : Env) → ℕ → ℕ → Mem → Mem → (ℕ → Type 0) → Type 0
KeepsUsed env n0 n1 m m' Freed =
    (l : Located env m n0 n1)
    → is_used (m (state_at l)) ≡ true
    → ¬ Freed (state_at l)
    → m' (state_at l) ≡ m (state_at l)

-- The tags of their memory.
abbrev pub KeepsUsedTags : (env : Env) → ℕ → ℕ → Mem → Mem → (ℕ → Type 0) → Type 0
KeepsUsedTags env n0 n1 m m' Freed =
    (l : Located env m n0 n1)
    → is_used (m (state_at l)) ≡ true
    → ¬ Freed (state_at l)
    → UsesShadow env.target
    → get_memory_tag env.target m' (address_at l) ≡ get_memory_tag env.target m (address_at l)

-- From `w` to `w'` no super page is lost, and used chunks stay used
-- and tagged, but for those of `Freed`.
pub record Kept (env : Env) (w w' : World) (Freed : ℕ → Type 0) : Type 0 where
  pub more0 : w.allocator.num_super_pages0 ≤ w'.allocator.num_super_pages0
  pub more1 : w.allocator.num_super_pages1 ≤ w'.allocator.num_super_pages1
  pub classes : KeepsClasses w.allocator.num_super_pages0 w.allocator.num_super_pages1 w.mem w'.mem
  pub used :
      KeepsUsed env w.allocator.num_super_pages0 w.allocator.num_super_pages1 w.mem w'.mem Freed
  pub tags :
      KeepsUsedTags env w.allocator.num_super_pages0 w.allocator.num_super_pages1 w.mem w'.mem Freed

pub more_pages :
    {n0 n1 n0' n1' : ℕ} (r i : ℕ)
    → n0 ≤ n0'
    → n1 ≤ n1'
    → i < pages_of n0 n1 r
    → i < pages_of n0' n1' r
more_pages r i more0 more1 known = ground arith

-- A located chunk, in a memory with the same classes.
abbrev pub located_kept :
    {env : Env} {m m' : Mem} {n0 n1 n0' n1' : ℕ}
    → n0 ≤ n0'
    → n1 ≤ n1'
    → KeepsClasses n0 n1 m m'
    → Located env m n0 n1
    → Located env m' n0' n1'
located_kept more0 more1 classes l = record {
  range_num = l.range_num;
  idx = l.idx;
  d = l.d;
  chunk = l.chunk;
  two = l.two;
  known = more_pages l.range_num l.idx more0 more1 l.known;
  page = IsSuperPage-kept l.page (classes l.range_num l.idx l.two l.known);
  below = l.below;
}

abbrev pub NotFreed : {env : Env} {w : World} {b : Block} → (ℕ → Type 0) → IsHeld env w b → Type 0
NotFreed Freed h = ¬ Freed (state_at h.place)

abbrev pub held_kept :
    {env : Env} {w w' : World} {b : Block} {Freed : ℕ → Type 0}
    → UsesShadow env.target
    → Kept env w w' Freed
    → (h : IsHeld env w b) → ¬ Freed (state_at h.place)
    → IsHeld env w' b
held_kept u k h not_freed = record {
  place = located_kept k.more0 k.more1 k.classes h.place;
  tag = h.tag;
  pointer = h.pointer;
  small = h.small;
  nonempty = h.nonempty;
  fits = h.fits;
  used = rw (k.used h.place h.used not_freed) h.used;
  stored = h.stored;
  read = k.tags h.place h.used not_freed u ∙ h.read;
  same_tag = h.same_tag;
}

pub Kept-trans :
    {env : Env} {w w1 w' : World} {Freed : ℕ → Type 0}
    → Kept env w w1 (λ a. ⊥)
    → Kept env w1 w' Freed
    → Kept env w w' Freed
Kept-trans k k' = record {
  more0 = omega (arith, k.more0, k'.more0);
  more1 = omega (arith, k.more1, k'.more1);
  classes = λ r i two known.
      k'.classes r i two (more_pages r i k.more0 k.more1 known) ∙ k.classes r i two known;
  used = λ l is_in_use out.
      let same = k.used l is_in_use (λ none_freed. none_freed) in
      k'.used (located_kept k.more0 k.more1 k.classes l) (rw same is_in_use) out ∙ same;
  tags = λ l is_in_use out u.
      let same = k.used l is_in_use (λ none_freed. none_freed) in
      k'.tags (located_kept k.more0 k.more1 k.classes l) (rw same is_in_use) out u
      ∙ k.tags l is_in_use (λ none_freed. none_freed) u;
}

-- Blocks are freed in the first step only.
pub Kept-then :
    {env : Env} {w w1 w' : World} {Freed : ℕ → Type 0}
    → Kept env w w1 Freed
    → Kept env w1 w' (λ a. ⊥)
    → Kept env w w' Freed
Kept-then k k' = record {
  more0 = omega (arith, k.more0, k'.more0);
  more1 = omega (arith, k.more1, k'.more1);
  classes = λ r i two known.
      k'.classes r i two (more_pages r i k.more0 k.more1 known) ∙ k.classes r i two known;
  used = λ l is_in_use out.
      let same = k.used l is_in_use out in
      k'.used (located_kept k.more0 k.more1 k.classes l) (rw same is_in_use)
        (λ none_freed. none_freed)
      ∙ same;
  tags = λ l is_in_use out u.
      let same = k.used l is_in_use out in
      k'.tags (located_kept k.more0 k.more1 k.classes l) (rw same is_in_use)
        (λ none_freed. none_freed) u
      ∙ k.tags l is_in_use out u;
}

pub Kept-same :
    (env : Env) (w w0 : World)
    → w0.mem ≡ w.mem
    → w0.allocator.num_super_pages0 ≡ w.allocator.num_super_pages0
    → w0.allocator.num_super_pages1 ≡ w.allocator.num_super_pages1
    → Kept env w w0 (λ a. ⊥)
Kept-same env w w0 mem same0 same1 = record {
  more0 = rw same0 (omega arith);
  more1 = rw same1 (omega arith);
  classes =
      λ r i two known. ap (λ (m : Mem). m (get_shadow_ptr super_page_metadata (page_at r i))) mem;
  used = λ l in_use out. ap (λ (m : Mem). m (state_at l)) mem;
  tags = λ l in_use out u. ap (λ (m : Mem). get_memory_tag env.target m (address_at l)) mem;
}
