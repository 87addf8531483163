-- ===== src/Tags/Memory.antt =====
-- Tags of memory: a chunk is tagged as a whole, and no other chunk is.
use sanitizers.Tags.Address.{apply_address_tag-mod}
use sanitizers.Shadow.Laws.{
  IsMine, get_shadow_ptr_lem, put_range_lem, small_shadow-IsPlain, large_shadow-IsPlain,
}
use sanitizers.Shadow.{
  FixedShadow, is_mine, get_shadow_ptr, get, put_range, small_shadow, large_shadow,
}
use native.Mathlib.Nat.{div-le_self}
use sanitizers.Base.{
  Mem, ok, ltb, leb, ◌==◌, if◌then◌else◌, ltb→lt, Bool-cases, ℕ, ◌+◌, ◌-◌, ◌%◌, ◌≤◌, ◌<◌, ◌≡◌, refl,
  ◌∙◌, ◌⊎◌, inl, inr, true, false, ◌&&◌, arith,
}
use sanitizers.Layout.{allocator_space, allocator_size, first_super_page}
use sanitizers.Tags.{Target, apply_address_tag, set_memory_tag, get_memory_tag}

-- A part of one of the two address ranges that the granularity of its shadow divides.
pub record InShadow (s : FixedShadow) (addr size : ℕ) : Type 0 where
  pub nonempty : 0 < size
  pub lower : s.beg ≤ addr
  pub upper : addr + size ≤ s.beg + s.size
  pub aligned : addr % s.granularity ≡ 0
  pub whole : size % s.granularity ≡ 0

abbrev pub InShadows : ℕ → ℕ → Type 0
InShadows addr size = InShadow small_shadow addr size ⊎ InShadow large_shadow addr size

abbrev pub InAllocator : ℕ → Type 0
InAllocator w = (allocator_space ≤ w) × (w < allocator_space + allocator_size)

-- Tags are kept in the software shadow.
pub record UsesShadow (t : Target) : Type 0 where
  pub no_mte : t.config.use_mte ≡ false
  pub shadow : t.config.use_shadow ≡ true

-- Where the tag of an address of the allocator stands.
abbrev pub tag_slot : ℕ → ℕ
tag_slot w =
    if ltb w (first_super_page 1)
    then get_shadow_ptr small_shadow w
    else get_shadow_ptr large_shadow w

pub get_memory_tag_lem :
    (t : Target) (m : Mem) (w : ℕ)
    → UsesShadow t
    → InAllocator w
    → get_memory_tag t m w ≡ ok (m (tag_slot w))
unfolding get_memory_tag get is_mine
get_memory_tag_lem t m w u h = simp (u.no_mte, u.shadow) (ground arith)

-- Bytes above both shadows, such as those of the allocator and of its metadata, stay.
abbrev pub KeepsAbove : Mem → Mem → Type 0
KeepsAbove m m' = (a : ℕ) → 0x5000_0000_0000 ≤ a → m' a ≡ m a

-- What tagging a chunk does to the tag of every address of the allocator.
abbrev Tagging : Target → Mem → Mem → ℕ → ℕ → ℕ → Type 0
Tagging t m m' addr size tag =
    (w : ℕ)
    → InAllocator w
    → get_memory_tag t m' w
      ≡ (if leb addr w && ltb w (addr + size) then ok tag else get_memory_tag t m w)

abbrev Slots : Mem → Mem → ℕ → ℕ → ℕ → Type 0
Slots m m' addr size tag =
    (w : ℕ)
    → InAllocator w
    → m' (tag_slot w) ≡ (if leb addr w && ltb w (addr + size) then tag else m (tag_slot w))

Slots-Tagging :
    (t : Target) (m m' : Mem) (addr size tag : ℕ)
    → UsesShadow t
    → Slots m m' addr size tag
    → Tagging t m m' addr size tag
Slots-Tagging t m m' addr size tag u slots w h =
    rw (get_memory_tag_lem t m' w u h, get_memory_tag_lem t m w u h, slots w h) (ground arith)

module _ (m : Mem) (addr size tag : ℕ) where
  small-Slots :
      InShadow small_shadow addr size
      → (m' : Mem) × (put_range small_shadow m addr size tag ≡ ok m')
        × Slots m m' addr size tag
        × KeepsAbove m m'
  unfolding get
  small-Slots c =
      let (m', eq, inside, outside) =
        put_range_lem m addr size tag small_shadow-IsPlain (c.lower, omega arith) c.upper c.aligned
          c.whole in
      (
        m',
        eq,
        λ w h. elim (Bool-cases (ltb w (first_super_page 1))) [
          | inl low ↦ rw low (inside w (h.0, ltb→lt _ _ low))
          | inr high ↦
              let mine : IsMine large_shadow w = ground arith in
              let slot = get_shadow_ptr_lem w large_shadow-IsPlain mine in
              rw high (
                outside (get_shadow_ptr large_shadow w) (inr (rw slot (omega arith)))
                ∙ ground arith)
        ],
        λ a above. outside a (inr (omega arith)),
      )

  large-Slots :
      InShadow large_shadow addr size
      → (m' : Mem) × (put_range large_shadow m addr size tag ≡ ok m')
        × Slots m m' addr size tag
        × KeepsAbove m m'
  unfolding get
  large-Slots c =
      let (m', eq, inside, outside) =
        put_range_lem m addr size tag large_shadow-IsPlain (c.lower, omega arith) c.upper c.aligned
          c.whole in
      (
        m',
        eq,
        λ w h. elim (Bool-cases (ltb w (first_super_page 1))) [
          | inr high ↦ rw high (inside w (ground arith))
          | inl low ↦
              let mine : IsMine small_shadow w = (h.0, ltb→lt _ _ low) in
              let slot = get_shadow_ptr_lem w small_shadow-IsPlain mine in
              rw low (
                outside (get_shadow_ptr small_shadow w)
                  (inl (rw slot (omega (arith, div-le_self (w - allocator_space) 16))))
                ∙ ground arith)
        ],
        λ a above. outside a (inr (omega arith)),
      )

set_with_shadow :
    (t : Target) (m : Mem) (addr size tag : ℕ)
    → UsesShadow t
    → InShadows addr size
    → (m' : Mem) × (set_memory_tag t m addr size tag ≡ ok m')
      × Slots m m' addr size tag
      × KeepsAbove m m'
unfolding set_memory_tag is_mine
set_with_shadow t m addr size tag u (inl c) =
    let (m', eq, slots, keeps) = small-Slots m addr size tag c in
    let mine : (leb allocator_space addr && ltb addr (first_super_page 1)) ≡ true = ground arith in
    (m', simp (u.no_mte, u.shadow, mine, eq), slots, keeps)
set_with_shadow t m addr size tag u (inr c) =
    let (m', eq, slots, keeps) = large-Slots m addr size tag c in
    let not_small : (leb allocator_space addr && ltb addr (first_super_page 1)) ≡ false =
      ground arith in
    let mine : (leb (first_super_page 1) addr && ltb addr (allocator_space + allocator_size))
        ≡ true =
      ground arith in
    (m', simp (u.no_mte, u.shadow, not_small, mine, eq), slots, keeps)

-- With tags in the software shadow, `SetMemoryTag` on an aligned part of one address range
-- succeeds, and afterwards `GetMemoryTag` gives the new tag for each of its addresses and the
-- former result for every other address of the allocator, also in the other range.
pub set_memory_tag_lem :
    (t : Target) (m : Mem) (addr size tag : ℕ)
    → UsesShadow t
    → InShadows addr size
    → (m' : Mem) × (set_memory_tag t m addr size tag ≡ ok m')
      × ((w : ℕ)
          → InAllocator w
          → get_memory_tag t m' w
            ≡ (if leb addr w && ltb w (addr + size) then ok tag else get_memory_tag t m w))
set_memory_tag_lem t m addr size tag u c =
    let (m', eq, slots, keeps) = set_with_shadow t m addr size tag u c in
    (m', eq, Slots-Tagging t m m' addr size tag u slots)

-- Whatever the flags, `GetMemoryTag` gives a tag for every address of the allocator.
pub get_memory_tag_total :
    (t : Target) (m : Mem) (w : ℕ) → InAllocator w → (tag : ℕ) × (get_memory_tag t m w ≡ ok tag)
unfolding get_memory_tag is_mine
get_memory_tag_total t m w h = elim (Bool-cases t.config.use_mte) [
  | inl mte ↦ simp mte (_, refl)
  | inr no_mte ↦ elim (Bool-cases t.config.use_shadow) [
    | inr no_shadow ↦ simp (no_mte, no_shadow) (0, refl)
    | inl shadow ↦
        (m (tag_slot w), get_memory_tag_lem t m w (record { no_mte = no_mte; shadow = shadow }) h)
  ]
]

pub InShadows-InAllocator :
    (addr size : ℕ)
    → InShadows addr size
    → InAllocator addr × (addr + size ≤ allocator_space + allocator_size)
InShadows-InAllocator addr size (inl c) = omega (arith, c.nonempty, c.lower, c.upper)
InShadows-InAllocator addr size (inr c) = omega (arith, c.nonempty, c.lower, c.upper)

mte_aligned :
    (t : Target) (addr size tag : ℕ)
    → t.config.use_aliases ≤ 4
    → InShadows addr size
    → ((size % 16 == 0) && (apply_address_tag t addr (tag % 15) % 16 == 0)) ≡ true
mte_aligned t addr size tag few (inl c) =
    rw
      (apply_address_tag-mod t few addr (tag % 15) (omega (arith, c.upper, c.nonempty))
        (omega arith))
      (ground (arith, c.aligned, c.whole))
mte_aligned t addr size tag few (inr c) =
    rw
      (apply_address_tag-mod t few addr (tag % 15) (omega (arith, c.upper, c.nonempty))
        (omega arith))
      (ground (arith, c.aligned, c.whole))

-- Whatever the flags, `SetMemoryTag` on an aligned part of one address range succeeds and leaves
-- the bytes above the shadows.
pub set_memory_tag_total :
    (t : Target) (m : Mem) (addr size tag : ℕ)
    → t.config.use_aliases ≤ 4
    → InShadows addr size
    → (m' : Mem) × (set_memory_tag t m addr size tag ≡ ok m') × KeepsAbove m m'
unfolding set_memory_tag is_mine
set_memory_tag_total t m addr size tag few c = elim (Bool-cases t.config.use_mte) [
  | inl mte ↦ simp (mte, mte_aligned t addr size tag few c) (m, refl, λ a above. refl)
  | inr no_mte ↦ elim (Bool-cases t.config.use_shadow) [
    | inr no_shadow ↦ simp (no_mte, no_shadow) (m, refl, λ a above. refl)
    | inl shadow ↦
        let (m', eq, slots, keeps) =
          set_with_shadow t m addr size tag (record { no_mte = no_mte; shadow = shadow }) c in
        (m', eq, keeps)
  ]
]
