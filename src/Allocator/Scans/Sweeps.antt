-- ===== src/Allocator/Scans/Sweeps.antt =====
-- `PostScan` sweeps each super page once.
use sanitizers.Base.{
  Mem, ok, ℕ, zero, suc, ◌+◌, ◌-◌, ◌≤◌, ◌<◌, ◌≡◌, ◌≢◌, refl, ap, ◌∙◌, arith, add64, mul64, ◌^◌, ◌⊎◌,
  inl, inr,
}
use native.Mathlib.Decide.{ℕ_discrete, dec_lt}
use sanitizers.Shadow.{get_shadow_ptr, super_page_metadata}
use sanitizers.SizeClass.{SizeClassDescr, chunk_size}
use sanitizers.SuperPage.{
  address_of_chunk, Env, states_of, count_states, count_from, move_from_quarantine_to_available,
  swept,
}
use sanitizers.SuperPage.State.{quarantined, swept}
use sanitizers.SuperPage.Chunk.{IsPlaced, IsSuperPage, state_outside_chunks, in_space}
use sanitizers.SuperPage.Meta.{outside_array, slot_apart, states_apart, IsSuperPage-kept}
use sanitizers.SuperPage.Sweep.{sweep_lem}
use sanitizers.Allocator.Allocate.Pages.{range_capacity, page_at, get_super_page_lem}
use sanitizers.Allocator.Scans.{post_scan_range}
use sanitizers.Allocator.Scans.Marks.{KeepsPlain, Calm, Calm-refl, Calm-trans, same_class}
use sanitizers.Allocator.Scans.Pointers.{IsHeap, few_pages}
use sanitizers.Allocator.Scans.Ranges.{pages_of}

-- A chunk of a super page.
pub record Located (env : Env) (m : Mem) (n0 n1 : ℕ) : Type 0 where
  pub range_num : ℕ
  pub idx : ℕ
  pub d : SizeClassDescr
  pub chunk : ℕ
  pub two : range_num ≤ 1
  pub known : idx < pages_of n0 n1 range_num
  pub page : IsSuperPage env m (page_at range_num idx) d
  pub below : chunk < d.num_chunks

abbrev pub state_at : {env : Env} {m : Mem} {n0 n1 : ℕ} → Located env m n0 n1 → ℕ
state_at l = states_of (page_at l.range_num l.idx) l.d + l.chunk

abbrev pub address_at : {env : Env} {m : Mem} {n0 n1 : ℕ} → Located env m n0 n1 → ℕ
address_at l = address_of_chunk (page_at l.range_num l.idx) l.chunk l.d

page_at-injective :
    (r i r' i' : ℕ)
    → r ≤ 1
    → r' ≤ 1
    → i < range_capacity
    → i' < range_capacity
    → page_at r i ≡ page_at r' i'
    → (r ≡ r') × (i ≡ i')
page_at-injective r i r' i' two two' few few' e = (ground arith, ground arith)

swept-byte : (s : ℕ) → (s < 2 ^ 8 → swept s < 2 ^ 8) × (s ≡ 0 → swept s ≡ 0)
unfolding swept
swept-byte s = (λ h. ground arith, λ h. ground arith)

swept-Calm :
    (sp : ℕ) (d : SizeClassDescr) (m m' : Mem)
    → 0x5000_0000_0000 ≤ states_of sp d
    → ((q : ℕ) → q < d.num_chunks → m' (states_of sp d + q) ≡ swept (m (states_of sp d + q)))
    → ((a : ℕ) → (a < states_of sp d) ⊎ (states_of sp d + d.num_chunks ≤ a) → m' a ≡ m a)
    → Calm m m'
swept-Calm sp d m m' high each outside a = elim (dec_lt a (states_of sp d)) [
  | yes before ↦ let same = outside a (inl before) in (λ h. rw same h, λ h. same ∙ h, λ low. same)
  | no past ↦ elim (dec_lt a (states_of sp d + d.num_chunks)) [
    | no behind ↦
        let same = outside a (inr (omega arith)) in (λ h. rw same h, λ h. same ∙ h, λ low. same)
    | yes inside ↦
        let here : states_of sp d + (a - states_of sp d) ≡ a = omega arith in
        let now : m' a ≡ swept (m a) = rw here at (each (a - states_of sp d) (omega arith)) in
        let (small, stays_zero) = swept-byte (m a) in
        (
          λ h. rw now (small h),
          λ h. now ∙ stays_zero h,
          λ low. absurd (omega (arith, low, high, past)),
        )
  ]
]

states_high : {sp : ℕ} {d : SizeClassDescr} → IsPlaced sp d → 0x5000_0000_0000 ≤ states_of sp d
states_high s = omega (arith, state_outside_chunks s 0 s.descr.some_chunk, in_space s)

each_at :
    {sp sp' : ℕ} {d d' : SizeClassDescr} (m m' : Mem) (p : ℕ)
    → sp' ≡ sp
    → d' ≡ d
    → ((q : ℕ) → q < d.num_chunks → m' (states_of sp d + q) ≡ swept (m (states_of sp d + q)))
    → p < d'.num_chunks
    → m' (states_of sp' d' + p) ≡ swept (m (states_of sp' d' + p))
each_at m m' p e e' each below = rw (e, e') (each p (rw e' at below))

module _ (env : Env) (m0 : Mem) (n0 n1 : ℕ) (heap : IsHeap env m0 n0 n1) where
  -- The classes are those of `m0`.
  abbrev pub SameClasses : Mem → Type 0
  SameClasses m =
      (sp : ℕ) (d : SizeClassDescr)
      → IsPlaced sp d
      → m (get_shadow_ptr super_page_metadata sp) ≡ m0 (get_shadow_ptr super_page_metadata sp)

  count_states_ok :
      {m : Mem} {sp : ℕ} {d : SizeClassDescr} (state : ℕ)
      → IsSuperPage env m sp d
      → (n : ℕ) × (count_states env m sp state ≡ ok n)
  unfolding count_states
  count_states_ok {m} {sp} {d} state s =
      (count_from d.num_chunks state m (states_of sp d), rw s.class refl)

  one_sweep :
      (m : Mem) {sp : ℕ} {d : SizeClassDescr}
      → SameClasses m
      → IsSuperPage env m0 sp d
      → (m' : Mem) × (move_from_quarantine_to_available env m sp ≡ ok m')
        × SameClasses m'
        × Calm m m'
        × KeepsPlain env m0 m m'
        × ((l : Located env m0 n0 n1)
            → (page_at l.range_num l.idx ≡ sp → m' (state_at l) ≡ swept (m (state_at l)))
              × (page_at l.range_num l.idx ≢ sp → m' (state_at l) ≡ m (state_at l)))
  one_sweep m {sp} {d} same s0 =
      let s = IsSuperPage-kept s0 (same sp d s0.place) in
      let (m', eq, each, outside, _, _, _) = sweep_lem env m s in
      (
        m',
        eq,
        λ sp' d' placed.
            outside (get_shadow_ptr super_page_metadata sp') (slot_apart placed s0.place)
            ∙ same sp' d' placed,
        swept-Calm sp d m m' (states_high s0.place) each outside,
        λ a plain. outside a (
            outside_array sp d a (λ p below e.
              plain
                (record { sp = sp; d = d; chunk = p; page = s0; below = below; at_state = e }))),
        λ l. (
          λ here. each_at m m' l.chunk here (same_class (rw here at l.page) s0) each l.below,
          λ ne. outside (state_at l) (
              outside_array sp d (state_at l)
                (λ p below. states_apart l.chunk p l.page.place s0.place ne l.below below)),
        ),
      )

  -- The chunks of the super pages from `first` to before `last`.
  abbrev pub InRun : ℕ → ℕ → ℕ → Located env m0 n0 n1 → Type 0
  InRun range_num first last l = (l.range_num ≡ range_num) × (first ≤ l.idx) × (l.idx < last)

  -- Each chunk of these is swept, and no other changes.
  abbrev pub SweepsRun : ℕ → ℕ → ℕ → Mem → Mem → Type 0
  SweepsRun range_num first last m m' =
      (l : Located env m0 n0 n1)
      → (InRun range_num first last l → m' (state_at l) ≡ swept (m (state_at l)))
        × (¬ InRun range_num first last l → m' (state_at l) ≡ m (state_at l))

  at_page :
      (range_num idx : ℕ) (l : Located env m0 n0 n1)
      → range_num ≤ 1
      → idx < pages_of n0 n1 range_num
      → page_at l.range_num l.idx ≡ page_at range_num idx
      → (l.range_num ≡ range_num) × (l.idx ≡ idx)
  at_page range_num idx l two known e =
      page_at-injective l.range_num l.idx range_num idx l.two two
        (few_pages env m0 n0 n1 heap l.range_num l.idx l.known)
        (few_pages env m0 n0 n1 heap range_num idx known) e

  pub post_scan_range-SweepsRun :
      (range_num rounds : ℕ) (m : Mem) (idx bytes : ℕ)
      → range_num ≤ 1
      → idx + rounds ≤ pages_of n0 n1 range_num
      → SameClasses m
      → (bytes' : ℕ) × (m' : Mem) × (post_scan_range env range_num rounds m idx bytes
          ≡ ok (bytes', m'))
        × SameClasses m'
        × Calm m m'
        × KeepsPlain env m0 m m'
        × SweepsRun range_num idx (idx + rounds) m m'
  unfolding post_scan_range
  post_scan_range-SweepsRun range_num zero m idx bytes two some_left same = (
    bytes,
    m,
    refl,
    same,
    Calm-refl m,
    λ a plain. refl,
    λ l. (λ (_, lo, hi). absurd (omega (arith, lo, hi)), λ out. refl),
  )
  post_scan_range-SweepsRun range_num (suc rounds) m idx bytes two some_left same =
      let known : idx < pages_of n0 n1 range_num = omega arith in
      let (d, page) = heap.pages range_num idx two known in
      let (m1, eq1, same1, calm1, plain1, first) = one_sweep m same page in
      let s : IsSuperPage env m (page_at range_num idx) d =
        IsSuperPage-kept page (same (page_at range_num idx) d page.place) in
      let s1 : IsSuperPage env m1 (page_at range_num idx) d =
        IsSuperPage-kept page (same1 (page_at range_num idx) d page.place) in
      let (now, counted) = count_states_ok quarantined s1 in
      let (bytes2, m2, eq2, same2, calm2, plain2, rest) =
        post_scan_range-SweepsRun range_num rounds m1 (idx + 1)
          (add64 bytes (mul64 (chunk_size d) now)) two (omega arith) same1 in
      rw
        (
          get_super_page_lem range_num idx two (few_pages env m0 n0 n1 heap range_num idx known),
          s.class,
          eq1,
          counted,
          eq2,
        )
        (
          bytes2,
          m2,
          refl,
          same2,
          Calm-trans calm1 calm2,
          λ a plain. plain2 a plain ∙ plain1 a plain,
          λ l. elim (ℕ_discrete (page_at l.range_num l.idx) (page_at range_num idx)) [
            | yes here ↦
                let (same_range, same_idx) = at_page range_num idx l two known here in
                let kept = (rest l).1 (λ (_, lo, _). omega (arith, lo, same_idx)) in
                let done = kept ∙ (first l).0 here in
                (
                  λ _. done,
                  λ out.
                      absurd (out (same_range, omega (arith, same_idx), omega (arith, same_idx))),
                )
            | no there ↦
                let before = (first l).1 there in
                (
                  λ (e, lo, hi).
                      let past : l.idx ≢ idx = λ e'. there (rw (e, e') refl) in
                      (rest l).0 (e, omega (arith, lo, past), omega (arith, hi)) ∙ ap swept before,
                  λ out.
                      (rest l).1 (λ (e, lo, hi). out (e, omega (arith, lo), omega (arith, hi)))
                      ∙ before,
                )
          ],
        )
