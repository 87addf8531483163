-- ===== src/Tags/Frames.antt =====
-- Which tags stay when memory changes.
use sanitizers.Base.{
  Mem, ok, ℕ, ◌+◌, ◌<◌, ◌≤◌, ◌≡◌, ◌⊎◌, inl, inr, refl, ap, sym, arith, ok-injective, leb, ltb, ◌&&◌,
  ◌∙◌, false, Bool-cases,
}
use sanitizers.Layout.{first_super_page}
use sanitizers.Shadow.{get_shadow_ptr}
use sanitizers.Tags.{Target, get_memory_tag, set_memory_tag}
use sanitizers.Tags.Memory.{
  tag_slot, InAllocator, InShadows, UsesShadow, get_memory_tag_lem, set_memory_tag_lem,
}

tag_slot-low : (a : ℕ) → InAllocator a → tag_slot a < 0x5000_0000_0000
unfolding get_shadow_ptr
tag_slot-low a (lo, hi) = elim (Bool-cases (ltb a (first_super_page 1))) [
  | inl small ↦ let low : a < first_super_page 1 = ground arith in rw small (omega arith)
  | inr large ↦ let high : first_super_page 1 ≤ a = ground arith in rw large (omega arith)
]

-- The tags of a range of addresses may differ, the others of the allocator stay.
abbrev pub KeepsTags : Target → ℕ → ℕ → Mem → Mem → Type 0
KeepsTags t first last m m' =
    UsesShadow t
    → (a : ℕ) → InAllocator a
    → (a < first) ⊎ (last ≤ a)
    → get_memory_tag t m' a ≡ get_memory_tag t m a

pub KeepsTags-trans :
    (t : Target) (first last : ℕ) (m m1 m' : Mem)
    → KeepsTags t first last m m1
    → KeepsTags t first last m1 m'
    → KeepsTags t first last m m'
KeepsTags-trans t first last m m1 m' k k' u a inside out = k' u a inside out ∙ k u a inside out

-- What changes above the shadows changes no tag.
pub above-KeepsTags :
    (t : Target) (first last : ℕ) (m m' : Mem)
    → ((a : ℕ) → a < 0x5000_0000_0000 → m' a ≡ m a)
    → KeepsTags t first last m m'
above-KeepsTags t first last m m' same u a inside out =
    get_memory_tag_lem t m' a u inside
    ∙ ap ok (same (tag_slot a) (tag_slot-low a inside))
    ∙ sym (get_memory_tag_lem t m a u inside)

pub set_memory_tag-KeepsTags :
    (t : Target) (m m' : Mem) (addr size tag : ℕ)
    → InShadows addr size
    → set_memory_tag t m addr size tag ≡ ok m'
    → KeepsTags t addr (addr + size) m m'
set_memory_tag-KeepsTags t m m' addr size tag shadows eq u a inside out =
    let (m1, eq1, law) = set_memory_tag_lem t m addr size tag u shadows in
    let same : m1 ≡ m' = ok-injective (sym eq1 ∙ eq) in
    let not_in : (leb addr a && ltb a (addr + size)) ≡ false = elim out [
      | inl before ↦ ground arith
      | inr behind ↦ ground arith
    ] in
    let now : get_memory_tag t m1 a ≡ get_memory_tag t m a = law a inside ∙ rw not_in refl in
    rw same at now
