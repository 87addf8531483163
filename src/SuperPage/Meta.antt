-- ===== src/SuperPage/Meta.antt =====
-- The byte that holds the class of a super page, and the bytes of its states.
use native.Mathlib.Decide.{dec_lt, ℕ_discrete}
use native.Mathlib.Nat.{mul-le-mul_left}
use sanitizers.Base.{
  ◌/◌, ◌*◌, Mem, ℕ, ◌+◌, ◌≤◌, ◌<◌, ◌≡◌, ◌≢◌, refl, ◌∙◌, arith, ◌⊎◌, inl, ◌-◌, inr,
}
use sanitizers.Layout.{first_super_page, primary_meta_space, second_range_meta_space}
use sanitizers.Shadow.{get_shadow_ptr, get, super_page_metadata}
use sanitizers.SizeClass.{SizeClassDescr, chunk_size}
use sanitizers.SizeClass.Shape.{IsDescr}
use sanitizers.SuperPage.{Env, get_size_class, get_scd, states_of, state_array}
use sanitizers.SuperPage.Chunk.{
  state_in_page, IsPlaced, IsSuperPage, in_space, state_outside_chunks,
}

pub meta_slot :
    {sp : ℕ} {d : SizeClassDescr}
    → IsPlaced sp d
    → (primary_meta_space ≤ get_shadow_ptr super_page_metadata sp)
      × (get_shadow_ptr super_page_metadata sp < second_range_meta_space)
unfolding get_shadow_ptr
meta_slot s = omega (arith, in_space s)

-- The class of a super page does not stand among the states.
pub meta-apart :
    {sp : ℕ} {d : SizeClassDescr} (s : IsPlaced sp d) (p : ℕ)
    → p < d.num_chunks
    → get_shadow_ptr super_page_metadata sp ≢ states_of sp d + p
meta-apart s p h = λ e. omega (arith, meta_slot s, state_outside_chunks s p h, in_space s)

pub get_scd-kept :
    (env : Env) (m m' : Mem) (sp : ℕ)
    → m' (get_shadow_ptr super_page_metadata sp) ≡ m (get_shadow_ptr super_page_metadata sp)
    → get_scd env m' sp ≡ get_scd env m sp
unfolding get_scd get_size_class get
get_scd-kept env m m' sp kept = rw kept refl

pub IsSuperPage-kept :
    {env : Env} {m m' : Mem} {sp : ℕ} {d : SizeClassDescr}
    → IsSuperPage env m sp d
    → m' (get_shadow_ptr super_page_metadata sp) ≡ m (get_shadow_ptr super_page_metadata sp)
    → IsSuperPage env m' sp d
IsSuperPage-kept {env} {m} {m'} {sp} s kept = record {
  class = get_scd-kept env m m' sp kept ∙ s.class;
  place = s.place;
}

-- What is no state of a super page lies before or behind the array of its states.
pub outside_array :
    (sp : ℕ) (d : SizeClassDescr) (a : ℕ)
    → ((p : ℕ) → p < d.num_chunks → a ≢ states_of sp d + p)
    → (a < states_of sp d) ⊎ (states_of sp d + d.num_chunks ≤ a)
outside_array sp d a ne = elim (dec_lt a (states_of sp d)) [
  | yes below ↦ inl below
  | no above ↦ elim (dec_lt a (states_of sp d + d.num_chunks)) [
    | no past ↦ inr (omega arith)
    | yes inside ↦ absurd (ne (a - states_of sp d) (omega arith) (omega arith))
  ]
]

-- The class of a super page does not stand in the array of the states of any.
pub slot_apart :
    {sp sp' : ℕ} {d d' : SizeClassDescr}
    → IsPlaced sp' d'
    → IsPlaced sp d
    → (get_shadow_ptr super_page_metadata sp' < states_of sp d)
      ⊎ (states_of sp d + d.num_chunks ≤ get_shadow_ptr super_page_metadata sp')
slot_apart {sp} {sp'} {d} s' s =
    outside_array sp d (get_shadow_ptr super_page_metadata sp')
      (λ p h e. omega (arith, e, meta_slot s', state_outside_chunks s p h, in_space s))

pub few_chunks : {d : SizeClassDescr} → IsDescr d → d.range_num ≡ 1 → d.num_chunks ≤ 512
few_chunks {d} descr second =
    let size : 1024 ≤ chunk_size d = omega (arith, descr.second second, descr.size_pos) in
    let room : d.num_chunks * 1024 ≤ d.num_chunks * chunk_size d =
      mul-le-mul_left d.num_chunks size in
    omega (arith, descr.fits, room)

pub second_states :
    {sp : ℕ} {d : SizeClassDescr}
    → IsPlaced sp d
    → d.range_num ≡ 1
    → states_of sp d ≡ second_range_meta_space + (sp - first_super_page 1) / 1024
unfolding state_array get_shadow_ptr
second_states s second =
    let low = rw second at s.lower in rw second (omega (arith, low, in_space s))

-- No byte is a state of two super pages.
pub states_apart :
    {sp sp' : ℕ} {d d' : SizeClassDescr} (p p' : ℕ)
    → IsPlaced sp d
    → IsPlaced sp' d'
    → sp ≢ sp'
    → p < d.num_chunks
    → p' < d'.num_chunks
    → states_of sp d + p ≢ states_of sp' d' + p'
states_apart {sp} {sp'} {d} {d'} p p' s s' ne below below' e = elim (ℕ_discrete d.range_num 1) [
  | yes second ↦ elim (ℕ_discrete d'.range_num 1) [
    | yes second' ↦ omega (
      arith,
      e,
      ne,
      second_states s second,
      second_states s' second',
      few_chunks s.descr second,
      few_chunks s'.descr second',
      s.aligned,
      s'.aligned,
      below,
      below',
      rw second at s.lower,
      rw second' at s'.lower,
    )
    | no first' ↦
        omega (arith, e, second_states s second, state_in_page s' p' below' first', in_space s')
  ]
  | no first ↦ elim (ℕ_discrete d'.range_num 1) [
    | yes second' ↦
        omega (arith, e, second_states s' second', state_in_page s p below first, in_space s)
    | no first' ↦ omega (
      arith,
      e,
      ne,
      state_in_page s p below first,
      state_in_page s' p' below' first',
      s.aligned,
      s'.aligned,
      in_space s,
      in_space s',
    )
  ]
]
