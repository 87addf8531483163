-- ===== src/Session/Serves.antt =====
-- `Allocate` keeps the invariant of the allocator and every used chunk, and gives a chunk that was not
-- used.
use sanitizers.Base.{
  Mem, ok, some, store8, load-store8_self, load-store8_ne, ℕ, ◌+◌, ◌^◌, ◌<◌, ◌≤◌, ◌≡◌, ◌≢◌, inl,
  inr, true, sym, ap, ◌∙◌, arith, ◌%◌,
}
use native.Mathlib.Decide.{ℕ_discrete}
use sanitizers.SizeClass.{chunk_size, num_size_classes}
use sanitizers.SizeClass.Filled.{filled_descrs}
use sanitizers.SizeClass.Lookup.{class_at}
use sanitizers.SizeClass.Shape.{class_at-IsDescr}
use sanitizers.SuperPage.{Env, states_of, address_of_chunk, available}
use sanitizers.SuperPage.Chunk.{in_space, state_outside_chunks}
use sanitizers.SuperPage.Free.{is_used, KeepsBut}
use sanitizers.Allocator.State.{World}
use sanitizers.Allocator.Allocate.{Os, get_per_sc, allocate}
use sanitizers.Allocator.Allocate.Pages.{page_at}
use sanitizers.Allocator.Allocate.Tagged.{IsGranting}
use sanitizers.Allocator.Allocate.Outcomes.{Known}
use sanitizers.Allocator.Allocate.Returns.{CachedPage, allocate-Served}
use sanitizers.Allocator.Allocate.Served.{Served}
use sanitizers.Allocator.Scans.Safety.{WorldLocated}
use sanitizers.Allocator.Scans.Sweeps.{state_at}
use sanitizers.Tags.Frames.{above-KeepsTags}
use sanitizers.Tags.{get_memory_tag, apply_address_tag}
use sanitizers.SuperPage.Chunk.{chunk-InAllocator}
use sanitizers.Allocator.Scans.Sweeps.{address_at}
use sanitizers.Tags.Address.{low_bits}
use sanitizers.Allocator.Untag.{UsesAliases}
use sanitizers.Tags.Address.{apply_address_tag-low}
use sanitizers.Session.Allocates.{
  IsReadied, Prepared-IsReadied, Known-kept, given_place, IsAllocator-IsReady,
}
use sanitizers.Session.{TakesFew, IsAllocator, HasRoom, IsHeld, max_size_class, apply_address_tag}
use sanitizers.Session.Frames.{
  KeepsContents, chunk_high, state_plain, Kept, Kept-trans, located_kept,
}
use sanitizers.Session.Stores.{IsHeap-but, classes_but, used_but, IsSpare-but}

-- What an allocation does to the allocator: it keeps the invariant and every used chunk with its
-- bytes, and the block that it gives is a chunk that was not used.
pub record Granted (env : Env) (size : ℕ) (w : World) (ptr : ℕ) (w' : World) : Type 0 where
  pub inv : IsAllocator env w'
  pub kept : Kept env w w' (λ a. ⊥)
  pub contents : KeepsContents env w w' (λ a. ⊥)
  pub few : TakesFew w w'
  pub held : IsHeld env w' (ptr, size)
  pub new :
      (l : WorldLocated env w)
      → is_used (w.mem (state_at l)) ≡ true
      → state_at l ≢ state_at held.place

available-unused : {s : ℕ} → is_used s ≡ true → s ≢ available
available-unused in_use e = let no_use = rw e at in_use in ground arith

module _ (env : Env) (w w' : World) (size sc ptr : ℕ) (inside : sc < num_size_classes)
    (inv : IsAllocator env w) (u : UsesAliases env.target) (pos : 0 < size)
    (fits : size ≤ chunk_size (class_at filled_descrs sc))
    (s : Served env (class_at filled_descrs sc) sc (CachedPage w sc) w ptr w') where
  readied : IsReadied env w s.w0
  readied = Prepared-IsReadied inside inv s.prepared

  known0 : Known (class_at filled_descrs sc) sc s.w0 s.given.sp
  known0 = elim s.given.looked [
    | inr known ↦ known
    | inl (cached, nonzero) ↦ elim (inv.cached sc inside) [
      | inl empty ↦ absurd (nonzero (cached ∙ empty))
      | inr known ↦
          let known' : Known (class_at filled_descrs sc) sc w s.given.sp = rw cached known in
          Known-kept env (class_at filled_descrs sc) sc w s.w0 s.given.sp
            (class_at-IsDescr sc inside).two_ranges readied.kept known'
    ]
  ]

  abbrev place0 : WorldLocated env s.w0
  place0 =
      given_place env s.w0 s.given.sp s.given.chunk inv.filled readied.heap inside known0
        s.given.below

  -- The byte of the state that is stored.
  at_place : states_of s.given.sp (class_at filled_descrs sc) + s.given.chunk ≡ state_at place0
  at_place = ap (λ p. states_of p (class_at filled_descrs sc) + s.given.chunk) known0.2

  keeps0 : KeepsBut s.w0.mem w'.mem (state_at place0)
  keeps0 b high ne = rw s.given.stored (
      load-store8_ne s.w0.mem (states_of s.given.sp (class_at filled_descrs sc) + s.given.chunk)
        s.given.state b (λ e. ne (e ∙ at_place)))

  now0 : w'.mem (state_at place0) ≡ s.given.state
  now0 =
      ap (λ (m : Mem). m (state_at place0)) s.given.stored
      ∙ ap
          (λ b.
            store8 s.w0.mem (states_of s.given.sp (class_at filled_descrs sc) + s.given.chunk)
              s.given.state b)
          (sym at_place)
      ∙ (load-store8_self s.w0.mem
          (states_of s.given.sp (class_at filled_descrs sc) + s.given.chunk) s.given.state)

  free0 : s.w0.mem (state_at place0) ≡ available
  free0 = rw at_place at s.given.free

  low0 : (a : ℕ) → a < 0x5000_0000_0000 → w'.mem a ≡ s.w0.mem a
  low0 a low =
      let l = place0 in
      let (after, _) = state_outside_chunks l.page.place l.chunk l.below in
      let far : a ≢ states_of s.given.sp (class_at filled_descrs sc) + s.given.chunk =
        λ e. omega (arith, e, at_place, after, (in_space l.page.place).0, low) in
      rw s.given.stored (
        load-store8_ne s.w0.mem (states_of s.given.sp (class_at filled_descrs sc) + s.given.chunk)
          s.given.state a far)

  kept0 : Kept env s.w0 w' (λ a. ⊥)
  kept0 =
      let n0 = s.w0.allocator.num_super_pages0 in
      let n1 = s.w0.allocator.num_super_pages1 in
      let small : w'.mem (state_at place0) < 2 ^ 8 = rw now0 s.given.small in
      record {
        more0 = rw s.given.allocator (omega arith);
        more1 = rw s.given.allocator (omega arith);
        classes = classes_but env s.w0.mem n0 n1 readied.heap place0 w'.mem keeps0 small;
        used = λ l in_use out.
            used_but env s.w0.mem n0 n1 readied.heap place0 w'.mem keeps0 small l in_use
              (λ e. available-unused in_use (ap s.w0.mem e ∙ free0));
        tags = λ l in_use out uses.
            above-KeepsTags env.target 0 0 s.w0.mem w'.mem low0 uses (address_at l)
              (chunk-InAllocator l.page.place l.chunk l.below) (inr (omega arith));
      }

  known' : Known (class_at filled_descrs sc) sc w' s.given.sp
  known' =
      Known-kept env (class_at filled_descrs sc) sc s.w0 w' s.given.sp
        (class_at-IsDescr sc inside).two_ranges kept0 known0

  kept' : Kept env w w' (λ a. ⊥)
  kept' = Kept-trans readied.kept kept0

  contents' : KeepsContents env w w' (λ a. ⊥)
  contents' l in_use out a lo hi =
      let k = readied.kept in
      let l0 : WorldLocated env s.w0 = located_kept k.more0 k.more1 k.classes l in
      keeps0 a (chunk_high l a lo) (state_plain l0 place0 a lo hi)
      ∙ readied.contents l in_use (λ none_freed. none_freed) a lo hi

  inv' : IsAllocator env w'
  inv' =
      let n0 = s.w0.allocator.num_super_pages0 in
      let n1 = s.w0.allocator.num_super_pages1 in
      let small : w'.mem (state_at place0) < 2 ^ 8 = rw now0 s.given.small in
      record {
        filled = inv.filled;
        heap =
            rw s.given.allocator
              (IsHeap-but env s.w0.mem n0 n1 readied.heap place0 w'.mem keeps0 small);
        slots = s.given.slots ∙ s.slots ∙ inv.slots;
        hints = λ sc' inside'. elim (ℕ_discrete sc' sc) [
          | yes same ↦ rw (same, s.given.own) (omega (arith, s.given.below))
          | no other ↦ rw (s.given.others sc' other ∙ s.others sc' other) (inv.hints sc' inside')
        ];
        cached = λ sc' inside'. elim (ℕ_discrete sc' sc) [
          | yes same ↦ rw (same, s.given.own) (inr known')
          | no other ↦
              let slot = s.given.others sc' other ∙ s.others sc' other in
              rw slot (elim (inv.cached sc' inside') [
                | inl empty ↦ inl empty
                | inr known ↦ inr (
                    Known-kept env (class_at filled_descrs sc') sc' w w' (get_per_sc w sc').sp
                      (class_at-IsDescr sc' inside').two_ranges kept' known)
              ])
        ];
        spare =
            rw s.given.allocator (
              IsSpare-but env s.w0.mem n0 n1 readied.heap place0 w'.mem keeps0 small readied.spare);
      }

  pub Served-Granted : Granted env size w ptr w'
  Served-Granted = record {
    inv = inv';
    kept = kept';
    contents = contents';
    few = rw s.given.allocator readied.few;
    held = record {
      place = located_kept kept0.more0 kept0.more1 kept0.classes place0;
      tag = s.given.tag % 2 ^ 8;
      pointer =
          s.given.pointer
          ∙ ap
              (λ p.
                apply_address_tag env.target
                  (address_of_chunk p s.given.chunk (class_at filled_descrs sc)) s.given.tag)
              known0.2
          ∙ apply_address_tag-low env.target u.few
              (address_of_chunk (page_at place0.range_num place0.idx) s.given.chunk
                (class_at filled_descrs sc))
              s.given.tag;
      small = omega arith;
      nonempty = pos;
      fits = fits;
      used = rw now0 s.given.used;
      stored = s.given.tag;
      read =
          ap
            (λ p.
              get_memory_tag env.target w'.mem
                (address_of_chunk p s.given.chunk (class_at filled_descrs sc)))
            (sym known0.2)
          ∙ s.given.read;
      same_tag = low_bits env.target.config.use_aliases s.given.tag u.few;
    };
    new = λ l in_use e.
        let same = readied.kept.used l in_use (λ out. out) in
        available-unused in_use (sym same ∙ ap s.w0.mem e ∙ free0);
  }

-- From the invariant, where there is room for a super page, an allocation succeeds.
pub allocate-Granted :
    (os : Os) (env : Env) (w : World) (size : ℕ)
    → IsGranting os
    → UsesAliases env.target
    → IsAllocator env w
    → HasRoom w
    → 0 < size
    → size ≤ max_size_class
    → (ptr : ℕ) × (w' : World) × (allocate os env w size ≡ ok (some ptr, w'))
      × Granted env size w ptr w'
allocate-Granted os env w size granting u inv room pos top =
    let (sc, ptr, w', fit, eq, served) =
      allocate-Served os env w size (IsAllocator-IsReady os granting u.few room inv) pos top in
    (ptr, w', eq, Served-Granted env w w' size sc ptr fit.inside inv u pos fit.holds served)
