-- ===== src/Malloc/Access.antt =====
-- The check of memory accesses, with tags in the software shadow and in address aliases.
use sanitizers.Layout.{allocator_space, allocator_size}
use native.Mathlib.Nat.{one-le-pow, pow-le-pow_right, mod-lt}
use sanitizers.Base.{
  refl, false, ◌∙◌, ==_refl, bit_and-low_mask, ok, trap, ltb, leb, ◌==◌, if◌then◌else◌, lt→ltb,
  le→leb, add64, shl64, ℕ, ◌+◌, ◌%◌, ◌^◌, ◌≤◌, ◌<◌, ◌≡◌, true, ◌&&◌, arith,
}
use sanitizers.Shadow.{is_mine}
use sanitizers.Tags.{Target, apply_address_tag, get_memory_tag}
use sanitizers.Tags.Address.{tag_count, address_tag_round_trip, untag-tag}
use sanitizers.Tags.Memory.{InAllocator}
use sanitizers.SuperPage.{Env, get_size_class}
use sanitizers.Allocator.{owns, count_access}
use sanitizers.Allocator.State.{World}
use sanitizers.Allocator.Untag.{UsesAliases}
use sanitizers.Malloc.{mtm_access}

module _ (env : Env) (u : UsesAliases env.target) where
  abbrev t : Target
  t = env.target

  abbrev aliases : ℕ
  aliases = env.target.config.use_aliases

  owns-tagged :
      (p tag : ℕ) → InAllocator p → tag < 2 ^ 8 → owns t (apply_address_tag t p tag) ≡ true
  unfolding owns
  owns-tagged p tag (lo, hi) h = rw (untag-tag t u.few p tag lo hi h) (in_range aliases u.few)
    where
      in_range :
          (k : ℕ)
          → k ≤ 4
          → (if k == 0
              then leb allocator_space p && ltb p (allocator_space + allocator_size)
              else leb allocator_space p && ltb p (add64 allocator_space (shl64 allocator_size k)))
            ≡ true
      in_range k small =
          let lower : 1 ≤ 2 ^ k = one-le-pow k 2 (omega arith) in
          let upper : 2 ^ k ≤ 16 = pow-le-pow_right {n = 2} (omega arith) small in ground arith

  count_access_total :
      (w : World) (p tag : ℕ)
      → InAllocator p
      → tag < 2 ^ 8
      → (w' : World) × (count_access env w (apply_address_tag t p tag) ≡ ok w') × (w'.mem ≡ w.mem)
  unfolding count_access get_size_class is_mine
  count_access_total w p tag (lo, hi) h =
      rw
        (
          owns-tagged p tag (lo, hi) h,
          untag-tag t u.few p tag lo hi h,
          le→leb allocator_space p lo,
          lt→ltb p (allocator_space + allocator_size) hi,
        )
        (_, refl, refl)

  -- An access through a pointer with tag `tag` to an address whose memory has tag `stored` is
  -- counted, and it passes exactly if the bits of the tag that an address can carry equal the four
  -- low bits of `stored`.
  pub mtm_access_lem :
      (w : World) (p tag stored : ℕ)
      → InAllocator p
      → tag < 2 ^ 8
      → get_memory_tag t w.mem p ≡ ok stored
      → (w' : World) × (count_access env w (apply_address_tag t p tag) ≡ ok w')
        × (mtm_access env w (apply_address_tag t p tag)
            ≡ (if tag % 2 ^ aliases == stored % 16 then ok w' else trap))
  unfolding mtm_access
  mtm_access_lem w p tag stored (lo, hi) h read =
      let (w', counted, same) = count_access_total w p tag (lo, hi) h in
      let (back, _) = address_tag_round_trip t u.few p tag (omega arith) h in
      let count : tag_count t ≡ 2 ^ aliases = simp u.no_tbi in
      let read' : get_memory_tag t w'.mem p ≡ ok stored = rw same read in
      (
        w',
        counted,
        rw
            (
              counted,
              owns-tagged p tag (lo, hi) h,
              untag-tag t u.few p tag lo hi h,
              read',
              back,
              count,
              bit_and-low_mask 4 stored,
            )
            (ground arith),
      )

  -- An access through a pointer that carries the tag of the memory passes if there are four alias
  -- bits, and traps if the tag, in its four low bits, is too large for the alias bits.
  pub mtm_access-own_tag :
      (w : World) (p tag : ℕ)
      → InAllocator p
      → tag < 2 ^ 8
      → get_memory_tag t w.mem p ≡ ok tag
      → (w' : World) × (count_access env w (apply_address_tag t p tag) ≡ ok w')
        × (aliases ≡ 4 → mtm_access env w (apply_address_tag t p tag) ≡ ok w')
        × (2 ^ aliases ≤ tag % 16 → mtm_access env w (apply_address_tag t p tag) ≡ trap)
  mtm_access-own_tag w p tag inside h read =
      let (w', counted, eq) = mtm_access_lem w p tag tag inside h read in
      (w', counted, λ four. eq ∙ rw (agree four) refl, λ large. eq ∙ rw (differ large) refl)
    where
      agree : aliases ≡ 4 → (tag % 2 ^ aliases == tag % 16) ≡ true
      agree four = rw four (==_refl (tag % 16))

      differ : 2 ^ aliases ≤ tag % 16 → (tag % 2 ^ aliases == tag % 16) ≡ false
      differ large =
          let below : tag % 2 ^ aliases < 2 ^ aliases =
            mod-lt tag (one-le-pow aliases 2 (omega arith)) in
          ground arith
