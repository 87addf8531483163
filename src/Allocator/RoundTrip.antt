-- ===== src/Allocator/RoundTrip.antt =====
-- A chunk that is handed out can be freed.
use sanitizers.Base.{
  Mem, store8, load-store8_self, load-store8_ne, Outcome, ok, trap, ◌==◌, if◌then◌else◌, ==_refl, ℕ,
  ◌+◌, ◌%◌, ◌^◌, ◌≤◌, ◌<◌, ◌≡◌, refl, sym, ap, ◌∙◌, ◌⊎◌, inl, inr, Bool, true, false, ◌&&◌, Option,
  none, some, arith,
}
use sanitizers.Shadow.{get_shadow_ptr, super_page_metadata}
use sanitizers.SizeClass.{SizeClassDescr}
use sanitizers.Tags.{Target, apply_address_tag, get_memory_tag}
use sanitizers.Tags.Memory.{InAllocator, get_memory_tag_lem, get_memory_tag_total}
use sanitizers.SuperPage.{used_mixed, used_data, Env, states_of, address_of_chunk, try_allocate}
use sanitizers.SuperPage.State.{used_mixed, used_data}
use sanitizers.SuperPage.Chunk.{IsSuperPage, chunk-InAllocator}
use sanitizers.SuperPage.Meta.{meta_slot, meta-apart, IsSuperPage-kept}
use sanitizers.SuperPage.Free.{is_used, new_state_used}
use sanitizers.SuperPage.Alloc.{Allocated, got, full, try_allocate-Allocated}
use sanitizers.Allocator.{allocator_deallocate}
use sanitizers.Allocator.Untag.{UsesAliases}
use sanitizers.Allocator.Frees.{allocator_deallocate-chunk}

not_in_use : (same : Bool) (m : Mem) → (if same && false then ok m else trap) ≡ trap
not_in_use true m = refl
not_in_use false m = refl

pub freed_twice :
    (env : Env) (m : Mem) {sp p : ℕ} {d : SizeClassDescr} {tag stored : ℕ}
    → UsesAliases env.target
    → IsSuperPage env m sp d
    → p < d.num_chunks
    → tag < 2 ^ 8
    → get_memory_tag env.target m (address_of_chunk sp p d) ≡ ok stored
    → tag % 2 ^ env.target.config.use_aliases ≡ stored % 2 ^ env.target.config.use_aliases
    → is_used (m (states_of sp d + p)) ≡ true
    → (m' : Mem) × (allocator_deallocate env m
          (apply_address_tag env.target (address_of_chunk sp p d) tag)
        ≡ ok m')
      × (allocator_deallocate env m' (apply_address_tag env.target (address_of_chunk sp p d) tag)
          ≡ trap)
freed_twice env m {sp} {p} {d} {tag} {stored} u s h small read same used =
    let aliases = env.target.config.use_aliases in
    let (m', freed, now, keeps) = allocator_deallocate-chunk env m u s h small read in
    let kept : m' (get_shadow_ptr super_page_metadata sp)
        ≡ m (get_shadow_ptr super_page_metadata sp) =
      keeps (get_shadow_ptr super_page_metadata sp) (omega (arith, meta_slot s.place))
        (meta-apart s.place p h) in
    let s' : IsSuperPage env m' sp d = IsSuperPage-kept s kept in
    let (stored', read') =
      get_memory_tag_total env.target m' (address_of_chunk sp p d)
        (chunk-InAllocator s.place p h) in
    let (m'', again, _, _) = allocator_deallocate-chunk env m' u s' h small read' in
    let free_now : is_used (m' (states_of sp d + p)) ≡ false = rw now refl in
    (
      m',
      freed ∙ rw (used, same, ==_refl (stored % 2 ^ aliases)) refl,
      again ∙ rw free_now (not_in_use (tag % 2 ^ aliases == stored' % 2 ^ aliases) m''),
    )

tag_of : Outcome ℕ → ℕ
tag_of (ok tag) = tag
tag_of trap = 0

store8-byte : (m : Mem) (a v b : ℕ) → ((c : ℕ) → m c < 2 ^ 8) → v < 2 ^ 8 → store8 m a v b < 2 ^ 8
unfolding store8
store8-byte m a v b bytes small = let old = bytes b in ground arith

-- In a memory of bytes every tag is one.
tag-byte :
    (t : Target) (m : Mem) (w tag : ℕ)
    → UsesAliases t
    → InAllocator w
    → ((a : ℕ) → m a < 2 ^ 8)
    → get_memory_tag t m w ≡ ok tag
    → tag < 2 ^ 8
unfolding tag_of
tag-byte t m w tag u inside bytes read =
    let same = ap tag_of (sym read ∙ get_memory_tag_lem t m w u.uses_shadow inside) in
    rw same (bytes _)

-- Null, or a pointer that can be freed, and not twice.
abbrev pub FreedOnce : Env → Mem → Bool → SizeClassDescr → ℕ → ℕ → Type 0
FreedOnce env m data_only d hint sp =
    (try_allocate env m data_only d hint sp ≡ ok (none, hint, m))
    ⊎ ((ptr next : ℕ) × (m1 : Mem) × (m2 : Mem) × (try_allocate env m data_only d hint sp
          ≡ ok (some ptr, next, m1))
        × (allocator_deallocate env m1 ptr ≡ ok m2)
        × (allocator_deallocate env m2 ptr ≡ trap))

Allocated-FreedOnce :
    (env : Env) (m : Mem) (data_only : Bool) {d : SizeClassDescr} (hint : ℕ) {sp : ℕ}
    → UsesAliases env.target
    → IsSuperPage env m sp d
    → ((a : ℕ) → m a < 2 ^ 8)
    → (out : Option ℕ × ℕ × Mem) → try_allocate env m data_only d hint sp ≡ ok out
    → Allocated env m d hint sp (if data_only then used_data else used_mixed) out
    → FreedOnce env m data_only d hint sp
Allocated-FreedOnce env m data_only {d} hint {sp} u s bytes _ eq (full busy) = inl eq
Allocated-FreedOnce env m data_only {d} hint {sp} u s bytes _ eq (got p tag below free read) =
    let v : ℕ = if data_only then used_data else used_mixed in
    let m1 = store8 m (states_of sp d + p) v in
    let (used, small) = new_state_used data_only in
    let kept =
      load-store8_ne m (states_of sp d + p) v (get_shadow_ptr super_page_metadata sp)
        (meta-apart s.place p below) in
    let s1 : IsSuperPage env m1 sp d = IsSuperPage-kept s kept in
    let bytes1 : (a : ℕ) → m1 a < 2 ^ 8 = λ a. store8-byte m (states_of sp d + p) v a bytes small in
    let tag_small =
      tag-byte env.target m1 (address_of_chunk sp p d) tag u (chunk-InAllocator s.place p below)
        bytes1 read in
    let used1 : is_used (m1 (states_of sp d + p)) ≡ true =
      rw (load-store8_self m (states_of sp d + p) v) used in
    let (m2, once, twice) = freed_twice env m1 u s1 below tag_small read refl used1 in
    inr (_, _, m1, m2, eq, once, twice)

-- What `TryAllocate` returns on a super page of bytes, with tags in the shadow and in aliases, can be
-- freed once: either it returns null, or a pointer for which `Deallocate` succeeds on the memory
-- that it leaves, and traps on the memory after that.
pub try_allocate-deallocate :
    (env : Env) (m : Mem) (data_only : Bool) {d : SizeClassDescr} (hint : ℕ) {sp : ℕ}
    → UsesAliases env.target
    → IsSuperPage env m sp d
    → hint ≤ d.num_chunks
    → ((a : ℕ) → m a < 2 ^ 8)
    → FreedOnce env m data_only d hint sp
try_allocate-deallocate env m data_only {d} hint {sp} u s h bytes =
    let (out, eq, result) = try_allocate-Allocated env m data_only hint s.place h in
    Allocated-FreedOnce env m data_only hint u s bytes out eq result
