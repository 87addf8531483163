-- ===== src/Allocator/Retags.antt =====
-- The tags that a free through a tagged pointer leaves as they are.
use sanitizers.Base.{
  Mem, ok, ◌==◌, leb, false, le→ltb, ◌>>=◌, ℕ, ◌+◌, ◌%◌, ◌^◌, ◌<◌, ◌≡◌, sym, ap, ◌∙◌, arith,
  ok-injective, bind_ok, add64,
}
use sanitizers.SizeClass.{SizeClassDescr, chunk_size}
use sanitizers.Layout.{allocator_space, allocator_size}
use sanitizers.Tags.{apply_address_tag}
use sanitizers.Tags.Memory.{get_memory_tag_total}
use sanitizers.Tags.Frames.{KeepsTags}
use sanitizers.SuperPage.{Env, address_of_chunk, deallocate, quarantine}
use sanitizers.SuperPage.Chunk.{IsSuperPage, in_space, chunk-InAllocator}
use sanitizers.SuperPage.Retags.{if_ok, deallocate-KeepsTags, quarantine-KeepsTags}
use sanitizers.Allocator.{
  remove_address_tag_and_check_for_double_free, start_of_super_page, super_page_at,
  allocator_deallocate, allocator_quarantine,
}
use sanitizers.Allocator.State.{World}
use sanitizers.Allocator.Untag.{UsesAliases, remove_address_tag_lem}
use sanitizers.Allocator.Frees.{start_of_super_page-chunk}

module _ (env : Env) (u : UsesAliases env.target) (m : Mem) {sp : ℕ} {d : SizeClassDescr}
    (s : IsSuperPage env m sp d) (p : ℕ) (h : p < d.num_chunks) (tag : ℕ)
    (small : tag < 2 ^ 8) where
  abbrev start : ℕ
  start = address_of_chunk sp p d

  -- The check lets nothing but the address of the chunk through.
  untagged :
      (q : ℕ)
      → remove_address_tag_and_check_for_double_free env.target m
          (apply_address_tag env.target (address_of_chunk sp p d) tag)
        ≡ ok q
      → address_of_chunk sp p d ≡ q
  untagged q eq =
      let inside = chunk-InAllocator s.place p h in
      let (stored, read) = get_memory_tag_total env.target m (address_of_chunk sp p d) inside in
      let checked =
        remove_address_tag_lem env.target u m (address_of_chunk sp p d) tag stored inside small
          read in
      if_ok (tag % 2 ^ env.target.config.use_aliases == stored % 2 ^ env.target.config.use_aliases)
        (address_of_chunk sp p d) q (sym checked ∙ eq)

  pub allocator_deallocate-KeepsTags :
      (m' : Mem)
      → allocator_deallocate env m (apply_address_tag env.target (address_of_chunk sp p d) tag)
        ≡ ok m'
      → KeepsTags env.target (address_of_chunk sp p d) (address_of_chunk sp p d + chunk_size d) m m'
  unfolding allocator_deallocate
  allocator_deallocate-KeepsTags m' eq =
      let (q, checked, rest) =
        bind_ok
          (remove_address_tag_and_check_for_double_free env.target m
            (apply_address_tag env.target (address_of_chunk sp p d) tag))
          (λ q. start_of_super_page q >>= λ sp'. deallocate env m sp' q) eq in
      let rest' = rw (sym (untagged q checked), start_of_super_page-chunk s.place p h) at rest in
      deallocate-KeepsTags env m s p h m' rest'

  pub allocator_quarantine-KeepsTags :
      (w w' : World)
      → w.mem ≡ m
      → allocator_quarantine env w (apply_address_tag env.target (address_of_chunk sp p d) tag)
        ≡ ok w'
      → KeepsTags env.target
          (address_of_chunk sp p d)
          (address_of_chunk sp p d + chunk_size d)
          m
          w'.mem
  unfolding allocator_quarantine super_page_at
  allocator_quarantine-KeepsTags w w' at_m eq =
      let (lower, upper) = in_space s.place in
      let past : leb (allocator_space + allocator_size) sp ≡ false = ground arith in
      let result : ℕ × Mem → World = λ r. record w {
        mem = r.1;
        local = record w.local { local_quarantine_size = add64 w.local.local_quarantine_size r.0 };
      } in
      let (q, checked, rest) =
        bind_ok
          (remove_address_tag_and_check_for_double_free env.target w.mem
            (apply_address_tag env.target (address_of_chunk sp p d) tag))
          (λ q. start_of_super_page q >>= λ sp0.
            super_page_at sp0 >>= λ sp'. quarantine env w.mem sp' q >>= λ r. ok (result r))
          eq in
      let checked' =
        ap
          (λ (m0 : Mem).
            remove_address_tag_and_check_for_double_free env.target m0
              (apply_address_tag env.target (address_of_chunk sp p d) tag))
          (sym at_m)
        ∙ checked in
      let at_q = untagged q checked' in
      let rest' =
        rw
          (
            sym at_q,
            start_of_super_page-chunk s.place p h,
            le→ltb sp allocator_space lower,
            past,
            s.place.aligned,
          )
          at rest in
      let ((bytes, m1), freed, done) =
        bind_ok (quarantine env w.mem sp (address_of_chunk sp p d)) (λ r. ok (result r)) rest' in
      let same : m1 ≡ w'.mem = ap (λ (v : World). v.mem) (ok-injective done) in
      quarantine-KeepsTags env m s p h bytes w'.mem (
        ap (λ (m0 : Mem). quarantine env m0 sp (address_of_chunk sp p d)) (sym at_m)
        ∙ freed
        ∙ ap (λ (m0 : Mem). ok (bytes, m0)) same)
