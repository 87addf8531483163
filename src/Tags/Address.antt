-- ===== src/Tags/Address.antt =====
-- Tags in addresses: what `ApplyAddressTag` puts in, `GetAddressTag` reads, and a tag of zero
-- takes out again.
use sanitizers.Layout.{allocator_space, allocator_size}
use sanitizers.Tags.{Target, apply_address_tag, get_address_tag}
use native.Mathlib.Nat.{one-le-pow, mod-lt, pow-le-pow_right}
use sanitizers.Base.{
  bit_and_split, bit_or_split, bit_or-zero, bit_and-low_mask, bit_and-high_mask, bit_or-fields,
  fields-bit_or, ◌==◌, if◌then◌else◌, ==_iff, Bool-cases, not64, shl64, ℕ, zero, suc, ◌+◌, ◌-◌, ◌*◌,
  ◌/◌, ◌%◌, ◌^◌, ◌≤◌, ◌<◌, bit_and, bit_or, ◌≡◌, refl, ◌∙◌, inl, inr, arith,
}

-- With top byte ignore the tag is the top byte.
apply_tbi :
    (p tag : ℕ)
    → tag < 2 ^ 8
    → bit_or (bit_and p (not64 (shl64 255 56))) (shl64 tag 56) ≡ p % 2 ^ 56 + tag * 2 ^ 56
apply_tbi p tag h =
    let small : shl64 tag 56 ≡ tag * 2 ^ 56 = omega arith in
    rw (small, bit_and-low_mask 56 p) (bit_or-fields 56 (p % 2 ^ 56) tag (omega arith))

-- With aliases it is in the bits 37 to 40.
apply_alias :
    (p tag : ℕ)
    → p < 2 ^ 64
    → tag < 16
    → bit_or (bit_and p (not64 (shl64 15 37))) (shl64 tag 37)
      ≡ p / 2 ^ 41 * 2 ^ 41 + tag * 2 ^ 37 + p % 2 ^ 37
apply_alias p tag hp h =
    rw
      (
        small,
        bit_and_split 37 p (not64 (shl64 15 37)),
        bit_and-high_mask 23 4 (p / 2 ^ 37),
        bit_and-low_mask 37 (p % 2 ^ 37),
        bit_or_split 37 masked (tag * 2 ^ 37),
        high,
        low,
        tag_high,
        tag_low,
        fields-bit_or 4 tag (p / 2 ^ 41) h,
        bit_or-zero (p % 2 ^ 37),
      )
      (omega arith)
  where
    small : shl64 tag 37 ≡ tag * 2 ^ 37
    small = omega arith

    masked : ℕ
    masked = p / 2 ^ 37 / 2 ^ 4 % 2 ^ 23 * 2 ^ 4 * 2 ^ 37 + p % 2 ^ 37 % 2 ^ 37

    high : masked / 2 ^ 37 ≡ p / 2 ^ 41 * 2 ^ 4
    high = omega arith

    low : masked % 2 ^ 37 ≡ p % 2 ^ 37
    low = omega arith

    tag_high : tag * 2 ^ 37 / 2 ^ 37 ≡ tag
    tag_high = omega arith

    tag_low : tag * 2 ^ 37 % 2 ^ 37 ≡ 0
    tag_low = omega arith

-- The number of tags that an address can carry.
abbrev pub tag_count : Target → ℕ
tag_count t = if t.tbi then 2 ^ 8 else 2 ^ t.config.use_aliases

alias_tag : (a tag : ℕ) → bit_and tag (2 ^ a - 1) ≡ tag % 2 ^ a
alias_tag a tag = bit_and-low_mask a tag

alias_tag-lt : (a tag : ℕ) → a ≤ 4 → tag % 2 ^ a < 16
alias_tag-lt a tag h =
    let small : 2 ^ a ≤ 16 = pow-le-pow_right {n = 2} (omega arith) h in
    let below : tag % 2 ^ a < 2 ^ a = mod-lt tag (one-le-pow a 2 (omega arith)) in omega arith

-- What `GetAddressTag` finds behind the alias bits: widths up to four do not see the bits above.
alias_read : (a hi tag : ℕ) → a ≤ 4 → (hi * 16 + tag % 2 ^ a) % 2 ^ a ≡ tag % 2 ^ a
alias_read zero hi tag h = omega arith
alias_read (suc zero) hi tag h = omega arith
alias_read (suc (suc zero)) hi tag h = omega arith
alias_read (suc (suc (suc zero))) hi tag h = omega arith
alias_read (suc (suc (suc (suc zero)))) hi tag h = omega arith
alias_read (suc (suc (suc (suc (suc a))))) hi tag h = absurd (omega arith)

pub low_bits : (k tag : ℕ) → k ≤ 4 → tag % 2 ^ 8 % 2 ^ k ≡ tag % 2 ^ k
low_bits zero tag h = omega arith
low_bits (suc zero) tag h = omega arith
low_bits (suc (suc zero)) tag h = omega arith
low_bits (suc (suc (suc zero))) tag h = omega arith
low_bits (suc (suc (suc (suc zero)))) tag h = omega arith
low_bits (suc (suc (suc (suc (suc k))))) tag h = absurd (omega arith)

-- The address with a tag put in, as arithmetic.
abbrev tagged : Target → ℕ → ℕ → ℕ
tagged t p tag =
    if t.tbi
    then p % 2 ^ 56 + tag * 2 ^ 56
    else if t.config.use_aliases == 0
    then p
    else p / 2 ^ 41 * 2 ^ 41 + tag % 2 ^ t.config.use_aliases * 2 ^ 37 + p % 2 ^ 37

module _ (t : Target) (few : t.config.use_aliases ≤ 4) where
  apply_address_tag_lem :
      (p tag : ℕ) → p < 2 ^ 64 → tag < 2 ^ 8 → apply_address_tag t p tag ≡ tagged t p tag
  unfolding apply_address_tag
  apply_address_tag_lem p tag hp h = elim (Bool-cases t.tbi) [
    | inl e ↦ simp e (apply_tbi p tag h)
    | inr e ↦ elim (Bool-cases (t.config.use_aliases == 0)) [
      | inl none_used ↦ simp (e, none_used)
      | inr used ↦
          simp (e, used, alias_tag)
            (apply_alias p (tag % 2 ^ t.config.use_aliases) hp
              (alias_tag-lt t.config.use_aliases tag few))
    ]
  ]

  tagged-lt : (p tag : ℕ) → p < 2 ^ 64 → tag < 2 ^ 8 → tagged t p tag < 2 ^ 64
  tagged-lt p tag hp h = ground (arith, alias_tag-lt t.config.use_aliases tag few)

  get_tagged :
      (p tag : ℕ)
      → p < 2 ^ 64
      → tag < 2 ^ 8
      → get_address_tag t (tagged t p tag) ≡ tag % tag_count t
  unfolding get_address_tag
  get_tagged p tag hp h = elim (Bool-cases t.tbi) [
    | inl e ↦ simp e (omega arith)
    | inr e ↦ elim (Bool-cases (t.config.use_aliases == 0)) [
      | inl none_used ↦
          let zero_width : t.config.use_aliases ≡ 0 = (==_iff _ _).0 none_used in
          simp (e, alias_tag, zero_width) (omega arith)
      | inr used ↦
          let T = tag % 2 ^ t.config.use_aliases in
          let field : (p / 2 ^ 41 * 2 ^ 41 + T * 2 ^ 37 + p % 2 ^ 37) / 2 ^ 37
              ≡ p / 2 ^ 41 * 16 + T =
            omega arith in
          simp (e, used, alias_tag, field, alias_read t.config.use_aliases (p / 2 ^ 41) tag few)
            (omega (arith, alias_tag-lt t.config.use_aliases tag few))
    ]
  ]

  tagged_again : (p tag : ℕ) → tagged t (tagged t p tag) 0 ≡ tagged t p 0
  tagged_again p tag = ground (arith, alias_tag-lt t.config.use_aliases tag few)

  -- The tag that was put into a 64-bit address is read back, modulo the number of tags, and
  -- putting in the tag zero afterwards gives what it gives for the original address.
  pub address_tag_round_trip :
      (p tag : ℕ)
      → p < 2 ^ 64
      → tag < 2 ^ 8
      → (get_address_tag t (apply_address_tag t p tag) ≡ tag % tag_count t)
        × (apply_address_tag t (apply_address_tag t p tag) 0 ≡ apply_address_tag t p 0)
  address_tag_round_trip p tag hp h = rw (apply_address_tag_lem p tag hp h) (
    get_tagged p tag hp h,
    rw
        (
          apply_address_tag_lem p 0 hp (omega arith),
          apply_address_tag_lem (tagged t p tag) 0 (tagged-lt p tag hp h) (omega arith),
        )
        (tagged_again p tag),
  )

  -- An address carries the low byte of its tag at most.
  pub apply_address_tag-low :
      (p tag : ℕ) → apply_address_tag t p tag ≡ apply_address_tag t p (tag % 2 ^ 8)
  unfolding apply_address_tag
  apply_address_tag-low p tag =
      let top : shl64 tag 56 ≡ shl64 (tag % 2 ^ 8) 56 = omega arith in
      rw
        (
          top,
          bit_and-low_mask t.config.use_aliases tag,
          bit_and-low_mask t.config.use_aliases (tag % 2 ^ 8),
          low_bits t.config.use_aliases tag few,
        )
        refl

  -- For an address of the allocator, taking the tag out again gives the address back.
  pub untag-tag :
      (p tag : ℕ)
      → allocator_space ≤ p
      → p < allocator_space + allocator_size
      → tag < 2 ^ 8
      → apply_address_tag t (apply_address_tag t p tag) 0 ≡ p
  untag-tag p tag lo hi h =
      (address_tag_round_trip p tag (omega arith) h).1
      ∙ apply_address_tag_lem p 0 (omega arith) (omega arith)
      ∙ ground arith

  -- Chunks are aligned to 16 bytes, and stay so with a tag.
  pub apply_address_tag-mod :
      (p tag : ℕ) → p < 2 ^ 64 → tag < 2 ^ 8 → apply_address_tag t p tag % 16 ≡ p % 16
  apply_address_tag-mod p tag hp h = rw (apply_address_tag_lem p tag hp h) (ground arith)
