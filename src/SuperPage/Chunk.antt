-- ===== src/SuperPage/Chunk.antt =====
-- Where the chunks of a super page and their states are.
use sanitizers.Shadow.{get_shadow_ptr, second_range_meta}
use sanitizers.Tags.Memory.{InShadows, InAllocator, InShadows-InAllocator}
use native.Mathlib.Decide.{dec_lt, ℕ_discrete}
use sanitizers.Base.{
  Mem, ok, trap, ◌==◌, le→leb, lt→leb, ==_iff, ==_refl, Bool-cases, mul64, ℕ, ◌+◌, ◌*◌, ◌/◌, ◌%◌,
  ◌^◌, ◌≤◌, ◌<◌, ◌≡◌, sym, ap, ◌≢◌, ◌⊎◌, inl, inr, arith,
}
use native.Mathlib.Nat.{
  mod-eq_of_lt, mul-le-mul_right, le-mul_of_pos_right, mod-add-div', div-mul-le_self, mul-div_left,
  mul-mod_left,
}
use sanitizers.Layout.{
  super_page_size, allocator_space, allocator_size, second_range_meta_space, first_super_page,
}
use sanitizers.SizeClass.{SizeClassDescr, chunk_size, size_of_inline_meta}
use sanitizers.SizeClass.Shape.{IsDescr, inline_meta-ge}
use sanitizers.SuperPage.{Env, get_scd, state_array, states_of, address_of_chunk, compute_state_ptr}

-- The place of a super page of the class `d`: aligned, in the range of its class.
pub record IsPlaced (sp : ℕ) (d : SizeClassDescr) : Type 0 where
  pub descr : IsDescr d
  pub aligned : sp % super_page_size ≡ 0
  pub lower : first_super_page d.range_num ≤ sp
  pub upper : sp + super_page_size ≤ first_super_page d.range_num + allocator_size / 2

-- A placed super page whose class the metadata knows.
pub record IsSuperPage (env : Env) (m : Mem) (sp : ℕ) (d : SizeClassDescr) : Type 0 where
  pub class : get_scd env m sp ≡ ok d
  pub place : IsPlaced sp d

module _ {sp : ℕ} {d : SizeClassDescr} (s : IsPlaced sp d) where
  -- The chunks fit the super page.
  pub chunks_fit : d.num_chunks * chunk_size d ≤ super_page_size
  chunks_fit = omega (arith, s.descr.fits)

  pub num_chunks-le : d.num_chunks ≤ super_page_size
  num_chunks-le = omega (arith, chunks_fit, le-mul_of_pos_right d.num_chunks s.descr.size_pos)

  pub in_space : (allocator_space ≤ sp) × (sp + super_page_size ≤ allocator_space + allocator_size)
  in_space = ground (arith, s.descr.two_ranges)

  pub chunk_end :
      (idx : ℕ) → idx < d.num_chunks → idx * chunk_size d + chunk_size d ≤ super_page_size
  chunk_end idx h = omega (arith, chunks_fit, mul-le-mul_right (chunk_size d) h)

  pub address_of_chunk_lem :
      (idx : ℕ) → idx < d.num_chunks → address_of_chunk sp idx d ≡ sp + idx * chunk_size d
  unfolding address_of_chunk
  address_of_chunk_lem idx h =
      let small : mul64 idx (chunk_size d) ≡ idx * chunk_size d =
        mod-eq_of_lt {n = idx * chunk_size d} {m = 2 ^ 64} (omega (arith, chunk_end idx h)) in
      rw small (omega (arith, chunk_end idx h, in_space))

  offset_of_chunk :
      (idx : ℕ)
      → idx < d.num_chunks
      → address_of_chunk sp idx d % super_page_size ≡ idx * chunk_size d
  offset_of_chunk idx h =
      rw (address_of_chunk_lem idx h) (omega (arith, chunk_end idx h, s.aligned, s.descr.size_pos))

  state_ptr_at :
      (ptr idx : ℕ)
      → ptr % super_page_size ≡ idx * chunk_size d
      → idx < d.num_chunks
      → compute_state_ptr sp ptr d ≡ ok (states_of sp d + idx)
  unfolding compute_state_ptr
  state_ptr_at ptr idx e h =
      let in_page : idx * chunk_size d ≤ super_page_size = omega (arith, chunk_end idx h) in
      let small : mul64 idx (chunk_size d) ≡ idx * chunk_size d =
        mod-eq_of_lt {n = idx * chunk_size d} {m = 2 ^ 64} (omega (arith, in_page)) in
      rw (
        e,
        s.descr.divides (idx * chunk_size d) in_page,
        mul-div_left idx s.descr.size_pos,
        small,
        ==_refl (idx * chunk_size d),
        lt→leb d.num_chunks idx h,
      )

  state_ptr_none :
      (ptr : ℕ)
      → ((idx : ℕ) → idx < d.num_chunks → ptr % super_page_size ≢ idx * chunk_size d)
      → compute_state_ptr sp ptr d ≡ trap
  unfolding compute_state_ptr
  state_ptr_none ptr ne =
      let off = ptr % super_page_size in
      let q = off / chunk_size d in
      let in_page : off ≤ super_page_size = omega arith in
      let small : mul64 q (chunk_size d) ≡ q * chunk_size d =
        mod-eq_of_lt {n = q * chunk_size d} {m = 2 ^ 64}
          (omega (arith, div-mul-le_self off (chunk_size d))) in
      rw (s.descr.divides off in_page, small)
        (elim (Bool-cases (q * chunk_size d == off)) [
          | inr miss ↦ rw miss
          | inl start ↦ elim (dec_lt q d.num_chunks) [
            | yes below ↦ absurd (ne q below (sym ((==_iff _ _).0 start)))
            | no above ↦ rw (start, le→leb d.num_chunks q (omega arith))
          ]
        ])

  -- For any pointer into the super page, `ComputeStatePtr` gives the state byte of chunk `idx` if
  -- the pointer is the start of that chunk, and traps if it is the start of no chunk.
  pub compute_state_ptr_cases :
      (ptr : ℕ)
      → ((idx : ℕ) × (idx < d.num_chunks)
          × (ptr % super_page_size ≡ idx * chunk_size d)
          × (compute_state_ptr sp ptr d ≡ ok (states_of sp d + idx)))
        ⊎ (((idx : ℕ) → idx < d.num_chunks → ptr % super_page_size ≢ idx * chunk_size d)
            × (compute_state_ptr sp ptr d ≡ trap))
  compute_state_ptr_cases ptr =
      let off = ptr % super_page_size in
      let q = off / chunk_size d in
      let unique : (idx : ℕ) → off ≡ idx * chunk_size d → q ≡ idx =
        λ idx e. rw e (mul-div_left idx s.descr.size_pos) in
      elim (ℕ_discrete off (q * chunk_size d)) [
        | no miss ↦
            let none_starts : (idx : ℕ) → idx < d.num_chunks → off ≢ idx * chunk_size d =
              λ idx h e. miss (let u = unique idx e in rw u e) in
            inr (none_starts, state_ptr_none ptr none_starts)
        | yes start ↦ elim (dec_lt q d.num_chunks) [
          | yes below ↦ inl (q, below, start, state_ptr_at ptr q start below)
          | no above ↦
              let none_starts : (idx : ℕ) → idx < d.num_chunks → off ≢ idx * chunk_size d =
                λ idx h e. above (let u = unique idx e in rw u h) in
              inr (none_starts, state_ptr_none ptr none_starts)
        ]
      ]

  pub compute_state_ptr-chunk :
      (idx : ℕ)
      → idx < d.num_chunks
      → compute_state_ptr sp (address_of_chunk sp idx d) d ≡ ok (states_of sp d + idx)
  compute_state_ptr-chunk idx h =
      state_ptr_at (address_of_chunk sp idx d) idx (offset_of_chunk idx h) h

  -- In the first range the states stand at the end of the super page.
  pub state_in_page :
      (idx : ℕ)
      → idx < d.num_chunks
      → d.range_num ≢ 1
      → (sp + d.num_chunks * chunk_size d ≤ states_of sp d + idx)
        × (states_of sp d + idx < sp + super_page_size)
  unfolding state_array
  state_in_page idx h other =
      let first : d.range_num ≡ 0 = omega (arith, s.descr.two_ranges) in
      let room : size_of_inline_meta d.num_chunks 0 + d.num_chunks * chunk_size d
          ≤ super_page_size =
        rw first at s.descr.fits in
      let bytes : d.num_chunks ≤ size_of_inline_meta d.num_chunks 0 =
        inline_meta-ge d.num_chunks (omega (arith, num_chunks-le)) in
      rw first (omega (arith, room, in_space), omega (arith, room, bytes, in_space))

  -- The state of a chunk lies behind the chunks in the super page itself, or in the array of the
  -- second range, so no chunk of the super page holds it.
  pub state_outside_chunks :
      (idx : ℕ)
      → idx < d.num_chunks
      → (sp + d.num_chunks * chunk_size d ≤ states_of sp d + idx)
        × ((states_of sp d + idx < sp + super_page_size)
            ⊎ (second_range_meta_space ≤ states_of sp d + idx))
  unfolding state_array get_shadow_ptr
  state_outside_chunks idx h = elim (ℕ_discrete d.range_num 1) [
    | yes second ↦
        let far : second_range_meta_space ≤ get_shadow_ptr second_range_meta sp =
          omega (arith, s.lower, s.upper, in_space) in
        rw second (omega (arith, far, in_space, chunks_fit), inr (omega (arith, far)))
    | no other ↦ let (lower, upper) = state_in_page idx h other in (lower, inl upper)
  ]

mul_mod_zero : (k c g : ℕ) → c % g ≡ 0 → k * c % g ≡ 0
mul_mod_zero k c g h =
    let whole : c ≡ c / g * g = omega (arith, mod-add-div' c g) in
    let e : k * c ≡ k * (c / g) * g = omega (arith, ap (λ (t : ℕ). k * t) whole) in
    rw (e, mul-mod_left (k * (c / g)) g)

module _ {sp : ℕ} {d : SizeClassDescr} (s : IsPlaced sp d) where
  -- Every chunk can be tagged as a whole.
  pub chunk-InShadows :
      (idx : ℕ) → idx < d.num_chunks → InShadows (address_of_chunk sp idx d) (chunk_size d)
  chunk-InShadows idx h = rw (address_of_chunk_lem s idx h) (elim (ℕ_discrete d.range_num 1) [
    | yes second ↦
        let units : idx * chunk_size d % 1024 ≡ 0 =
          mul_mod_zero idx (chunk_size d) 1024 (s.descr.second second) in
        let low : first_super_page 1 ≤ sp = rw second at s.lower in
        inr (record {
          nonempty = s.descr.size_pos;
          lower = omega (arith, low);
          upper = omega (arith, chunk_end s idx h, in_space s);
          aligned = omega (arith, units, s.aligned);
          whole = s.descr.second second;
        })
    | no other ↦
        let first : d.range_num ≡ 0 = omega (arith, s.descr.two_ranges) in
        let units : idx * chunk_size d % 16 ≡ 0 =
          mul_mod_zero idx (chunk_size d) 16 (omega arith) in
        let high : sp + super_page_size ≤ first_super_page 0 + allocator_size / 2 =
          rw first at s.upper in
        inl (record {
          nonempty = s.descr.size_pos;
          lower = omega (arith, in_space s);
          upper = omega (arith, chunk_end s idx h, high);
          aligned = omega (arith, units, s.aligned);
          whole = omega arith;
        })
  ])

  pub chunk-InAllocator : (idx : ℕ) → idx < d.num_chunks → InAllocator (address_of_chunk sp idx d)
  chunk-InAllocator idx h =
      (InShadows-InAllocator (address_of_chunk sp idx d) (chunk_size d) (chunk-InShadows idx h)).0
