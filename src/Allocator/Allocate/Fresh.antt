-- ===== src/Allocator/Allocate/Fresh.antt =====
-- `AllocateSuperPage`, where the system grants the pages.
use sanitizers.Allocator.Allocate.Tagged.{
  IsGranting, map_aliases_lem, tag_chunks_lem, tag_chunks-KeepsTags, set_size_class_lem,
}
use sanitizers.Base.{
  ℕ, ◌+◌, ◌*◌, ◌-◌, ◌^◌, ◌≡◌, ◌≢◌, ◌<◌, ◌≤◌, ok, refl, sym, ◌∙◌, arith, leb, ltb, if◌then◌else◌,
  ◌&&◌, Mem, ◌⊎◌, inl, inr,
}
use sanitizers.Layout.{super_page_size, second_range_meta_space}
use sanitizers.Shadow.{get_shadow_ptr, super_page_metadata, second_range_meta}
use sanitizers.SizeClass.{SizeClassDescr, chunk_size, size_to_size_class}
use sanitizers.SizeClass.Shape.{IsDescr}
use sanitizers.SuperPage.Meta.{few_chunks, meta_slot, meta-apart}
use sanitizers.SuperPage.{state_array}
use native.Mathlib.Decide.{ℕ_discrete}
use sanitizers.Tags.Frames.{KeepsTags, above-KeepsTags}
use sanitizers.Tags.{Target}
use sanitizers.Base.{◌⊎◌, inl, inr}
use sanitizers.Tags.Memory.{InShadows}
use sanitizers.SuperPage.{Env, states_of, available}
use sanitizers.SuperPage.State.{available}
use sanitizers.SuperPage.Chunk.{
  chunks_fit, IsPlaced, in_space, state_outside_chunks, state_in_page, chunk-InShadows,
  address_of_chunk_lem,
}
use sanitizers.Allocator.State.{World, get_num_super_pages}
use sanitizers.Allocator.Allocate.{Os, allocate_super_page, count_super_page}
use sanitizers.Allocator.Allocate.Pages.{
  page_at, range_capacity, get_super_page_lem, page_at-IsPlaced,
}

-- The states of super pages of the second range that are not yet in use are zero.
abbrev pub IsSpare : Mem → ℕ → Type 0
IsSpare m n1 =
    (b : ℕ)
    → get_shadow_ptr second_range_meta (page_at 1 n1) ≤ b
    → b < second_range_meta_space + 2 ^ 26
    → m b ≡ available

second_slot :
    (n : ℕ)
    → n < range_capacity
    → get_shadow_ptr second_range_meta (page_at 1 n) ≡ second_range_meta_space + n * 512
unfolding get_shadow_ptr
second_slot n h = omega arith

second_states :
    (n : ℕ) (d : SizeClassDescr)
    → d.range_num ≡ 1
    → states_of (page_at d.range_num n) d ≡ get_shadow_ptr second_range_meta (page_at 1 n)
unfolding state_array
second_states n d second = rw second refl

-- The bytes of the states of a new super page: in its own pages, or zero already.
fresh_state :
    (m m1 : Mem) (n : ℕ) {d : SizeClassDescr} (p : ℕ)
    → n < range_capacity
    → IsPlaced (page_at d.range_num n) d
    → (d.range_num ≡ 1 → IsSpare m n)
    → ((b : ℕ)
        → m1 b ≡ (
            if leb (page_at d.range_num n) b && ltb b (page_at d.range_num n + super_page_size)
            then 0
            else m b))
    → p < d.num_chunks
    → m1 (states_of (page_at d.range_num n) d + p) ≡ available
fresh_state m m1 n {d} p few s spare zeros h = elim (ℕ_discrete d.range_num 1) [
  | yes second ↦
      let at_slot = second_states n d second in
      let slot = second_slot n few in
      let small = few_chunks s.descr second in
      let (lo, hi) = in_space s in
      let kept : m (states_of (page_at d.range_num n) d + p) ≡ available =
        spare second (states_of (page_at d.range_num n) d + p) (omega (arith, at_slot))
          (omega (arith, at_slot, slot)) in
      let above : page_at d.range_num n + super_page_size
          ≤ states_of (page_at d.range_num n) d + p =
        omega (arith, at_slot, slot) in
      let e = zeros (states_of (page_at d.range_num n) d + p) in ground arith
  | no first ↦
      let (lower, upper) = state_in_page s p h first in
      let e = zeros (states_of (page_at d.range_num n) d + p) in ground arith
]

-- A super page holds zeros.
abbrev pub Cleared : ℕ → Mem → Type 0
Cleared sp m = (b : ℕ) → sp ≤ b → b < sp + super_page_size → m b ≡ 0

-- Above the shadows only a super page and the byte of its class may differ.
abbrev pub SameElsewhere : ℕ → Mem → Mem → Type 0
SameElsewhere sp m m' =
    (b : ℕ)
    → 0x5000_0000_0000 ≤ b
    → (b < sp) ⊎ (sp + super_page_size ≤ b)
    → b ≢ get_shadow_ptr super_page_metadata sp
    → m' b ≡ m b

zero_inside :
    (sp size b now was : ℕ)
    → now ≡ (if leb sp b && ltb b (sp + size) then 0 else was)
    → ((sp ≤ b → b < sp + size → now ≡ 0) × ((b < sp) ⊎ (sp + size ≤ b) → now ≡ was))
zero_inside sp size b now was e = (
  λ lo hi. ground arith,
  λ out. elim out [ inl before ↦ ground arith | inr behind ↦ ground arith ],
)

-- What `AllocateSuperPage` leaves: one super page more, of the class `sc`, whose chunks are all
-- available; the tables of the thread are kept.
pub record HasFresh (t : Target) (d : SizeClassDescr) (sc n : ℕ) (w w' : World) : Type 0 where
  pub allocator : w'.allocator ≡ count_super_page w.allocator d.range_num
  pub per_sc : w'.local.per_sc ≡ w.local.per_sc
  pub class : w'.mem (get_shadow_ptr super_page_metadata (page_at d.range_num n)) ≡ sc
  pub states :
      (p : ℕ) → p < d.num_chunks → w'.mem (states_of (page_at d.range_num n) d + p) ≡ available
  pub cleared : Cleared (page_at d.range_num n) w'.mem
  pub elsewhere : SameElsewhere (page_at d.range_num n) w.mem w'.mem
  pub tags :
      KeepsTags t (page_at d.range_num n) (page_at d.range_num n + super_page_size) w.mem w'.mem

pub allocate_super_page_lem :
    (os : Os) (env : Env) (w : World) (size : ℕ) {sc n : ℕ} {d : SizeClassDescr}
    → IsGranting os
    → env.target.config.use_aliases ≤ 4
    → size_to_size_class env.descrs size ≡ (sc, d)
    → IsDescr d
    → get_num_super_pages w.allocator d.range_num ≡ n
    → n < range_capacity
    → (d.range_num ≡ 1 → IsSpare w.mem n)
    → (w' : World) × (allocate_super_page os env w size ≡ ok w') × HasFresh env.target d sc n w w'
unfolding allocate_super_page
allocate_super_page_lem os env w size {sc} {n} {d} g few class_of descr count room spare =
    let s = page_at-IsPlaced n descr room in
    let sp = page_at d.range_num n in
    let (m1, mapped, zeros) = g.maps w.mem sp super_page_size in
    let (m2, classed, class, other) = set_size_class_lem m1 sc s in
    let chunks : (i : ℕ) → i < d.num_chunks → InShadows (sp + i * chunk_size d) (chunk_size d) =
      λ i lt. rw (address_of_chunk_lem s i lt) at (chunk-InShadows s i lt) in
    let (rand, m3, tagged, keeps) =
      tag_chunks_lem env (chunk_size d) d.num_chunks m2 sp w.local.rand few chunks in
    let (slot_low, slot_high) = meta_slot s in
    let at_page = get_super_page_lem d.range_num n descr.two_ranges room in
    (
      record w {
        mem = m3;
        allocator = count_super_page w.allocator d.range_num;
        local = record w.local { rand = rand };
      },
      rw
          (
            class_of,
            count,
            at_page,
            mapped,
            map_aliases_lem (2 ^ env.target.config.use_aliases - 1) sp sp g,
            classed,
            tagged,
          )
          refl,
      record {
        allocator = refl;
        per_sc = refl;
        class = keeps (get_shadow_ptr super_page_metadata sp) (omega arith) ∙ class;
        states = λ p h.
            let (above, _) = state_outside_chunks s p h in
            let (lo, _) = in_space s in
            keeps (states_of sp d + p) (omega arith)
            ∙ other (states_of sp d + p) (λ e. meta-apart s p h (sym e))
            ∙ fresh_state w.mem m1 n p room s spare zeros h;
        cleared = λ b lo hi.
            keeps b (omega (arith, (in_space s).0))
            ∙ other b (omega (arith, slot_low, (in_space s).1))
            ∙ (zero_inside sp super_page_size b (m1 b) (w.mem b) (zeros b)).0 lo hi;
        elsewhere = λ b high out ne.
            keeps b high
            ∙ other b ne
            ∙ (zero_inside sp super_page_size b (m1 b) (w.mem b) (zeros b)).1 out;
        tags = λ u a room out.
            tag_chunks-KeepsTags env (chunk_size d) d.num_chunks m2 sp w.local.rand rand m3 chunks
              tagged u a room
              (elim out [
                | inl before ↦ inl before
                | inr behind ↦ inr (omega (arith, behind, chunks_fit s))
              ])
            ∙ above-KeepsTags env.target sp (sp + super_page_size) w.mem m2
                (λ b low.
                  other b (omega (arith, low, slot_low))
                  ∙ (zero_inside sp super_page_size b (m1 b) (w.mem b) (zeros b)).1
                      (inl (omega (arith, low, (in_space s).0))))
                u a room out;
      },
    )
