-- ===== src/Allocator/Untag.antt =====
-- The check of a pointer that is freed, with tags in the software shadow and in address aliases.
use sanitizers.Base.{
  ==_refl, le→leb, lt→ltb, refl, true, ◌∙◌, bit_and-low_mask, Mem, ok, trap, ◌==◌, if◌then◌else◌,
  u8, ℕ, zero, suc, ◌+◌, ◌%◌, ◌^◌, ◌≤◌, ◌<◌, ◌≡◌, ◌≢◌, false, arith,
}
use sanitizers.Tags.{Target, apply_address_tag, get_memory_tag}
use sanitizers.Tags.Address.{tag_count, address_tag_round_trip, untag-tag}
use sanitizers.Tags.Memory.{
  InAllocator, UsesShadow, InShadows, InShadows-InAllocator, set_memory_tag_lem,
}
use sanitizers.SuperPage.{Env, update_memory_tag_on_free}
use sanitizers.Allocator.{allocator_deallocate, remove_address_tag_and_check_for_double_free}

-- The software shadow and `aliases` bits of address tag.
pub record UsesAliases (t : Target) : Type 0 where
  pub uses_shadow : UsesShadow t
  pub no_tbi : t.tbi ≡ false
  pub some_aliases : 1 ≤ t.config.use_aliases
  pub few : t.config.use_aliases ≤ 4

-- The next tag differs, also behind the wrap of a byte.
neighbour : (k tag : ℕ) → 1 ≤ k → k ≤ 4 → u8 (tag + 1) % 2 ^ k ≢ tag % 2 ^ k
neighbour zero tag h h' = absurd (omega arith)
neighbour (suc zero) tag h h' = λ e. omega arith
neighbour (suc (suc zero)) tag h h' = λ e. omega arith
neighbour (suc (suc (suc zero))) tag h h' = λ e. omega arith
neighbour (suc (suc (suc (suc zero)))) tag h h' = λ e. omega arith
neighbour (suc (suc (suc (suc (suc k))))) tag h h' = absurd (omega arith)

module _ (t : Target) (u : UsesAliases t) where
  abbrev aliases : ℕ
  aliases = t.config.use_aliases

  aliases_on : (aliases == 0) ≡ false
  aliases_on = let some = u.some_aliases in ground arith

  count : tag_count t ≡ 2 ^ aliases
  count = simp u.no_tbi

  -- A pointer with tag `tag` to an address whose memory has tag `stored` passes the check exactly
  -- if the two agree on the bits that an address can carry; then the check gives the address.
  pub remove_address_tag_lem :
      (m : Mem) (p tag stored : ℕ)
      → InAllocator p
      → tag < 2 ^ 8
      → get_memory_tag t m p ≡ ok stored
      → remove_address_tag_and_check_for_double_free t m (apply_address_tag t p tag)
        ≡ (if tag % 2 ^ aliases == stored % 2 ^ aliases then ok p else trap)
  unfolding remove_address_tag_and_check_for_double_free
  remove_address_tag_lem m p tag stored (lo, hi) h read =
      let (back, _) = address_tag_round_trip t u.few p tag (omega arith) h in
      let plain = untag-tag t u.few p tag lo hi h in
      let shadow = u.uses_shadow.shadow in
      rw (plain, read, back, count, shadow, aliases_on, bit_and-low_mask aliases stored)
        (ground arith)

  same_tag : (x : ℕ) → (x % 2 ^ aliases == x % 2 ^ aliases) ≡ true
  same_tag x = ==_refl (x % 2 ^ aliases)

  next_tag : (tag : ℕ) → (tag % 2 ^ aliases == u8 (tag + 1) % 2 ^ aliases) ≡ false
  next_tag tag = let ne = neighbour aliases tag u.some_aliases u.few in ground arith

-- After the tag of freed memory has been changed, a free of any of its addresses traps if the
-- pointer still carries the former tag, and passes the check if it carries the new one.
pub update_memory_tag_on_free-stale :
    (env : Env) (m : Mem) {p size tag : ℕ}
    → UsesAliases env.target
    → InShadows p size
    → tag < 2 ^ 8
    → get_memory_tag env.target m p ≡ ok tag
    → (m' : Mem) × (update_memory_tag_on_free env m p size ≡ ok (u8 (tag + 1), m'))
      × ((a : ℕ)
          → p ≤ a
          → a < p + size
          → (allocator_deallocate env m' (apply_address_tag env.target a tag) ≡ trap)
            × (remove_address_tag_and_check_for_double_free env.target m'
                  (apply_address_tag env.target a (u8 (tag + 1)))
                ≡ ok a))
unfolding update_memory_tag_on_free allocator_deallocate
update_memory_tag_on_free-stale env m {p} {size} {tag} u inside small read =
    let t = env.target in
    let (m', wrote, law) = set_memory_tag_lem t m p size (u8 (tag + 1)) u.uses_shadow inside in
    let room = InShadows-InAllocator p size inside in
    (
      m',
      rw (read, wrote) refl,
      λ a lo hi.
          let space : InAllocator a = omega (arith, room) in
          let here : get_memory_tag t m' a ≡ ok (u8 (tag + 1)) =
            law a space ∙ rw (le→leb p a lo, lt→ltb a (p + size) hi) refl in
          (
            rw
                (
                  remove_address_tag_lem t u m' a tag (u8 (tag + 1)) space small here,
                  next_tag t u tag,
                )
                refl,
            remove_address_tag_lem t u m' a (u8 (tag + 1)) (u8 (tag + 1)) space (omega arith) here
                ∙ rw (same_tag t u (u8 (tag + 1))) refl,
          ),
    )
