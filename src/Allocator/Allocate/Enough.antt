-- ===== src/Allocator/Allocate/Enough.antt =====
-- `AllocateSlower` returns a chunk: two rounds of its loop are enough.
use sanitizers.Allocator.Allocate.Served.{as_is, with_page, Served}
use sanitizers.Base.{
  Mem, inr, sym, get_or, get_or-set_ne, true, false, ℕ, suc, ◌+◌, ◌-◌, ◌≡◌, ◌<◌, ◌≤◌, ◌≡◌, Option,
  none, some, ok, refl, ap, ◌∙◌, arith, ◌==◌, add64, length, length-set, get_or-set_self, ◌%◌, true,
  false,
}
use sanitizers.Layout.{meta}
use sanitizers.Shadow.{get_shadow_ptr, super_page_metadata}
use sanitizers.SizeClass.{SizeClassDescr, size_to_size_class}
use sanitizers.SizeClass.Shape.{IsDescr}
use sanitizers.SuperPage.{Env, states_of, available}
use sanitizers.SuperPage.State.{available}
use sanitizers.Allocator.State.{rand_r, World, Allocator, get_num_super_pages}
use sanitizers.Allocator.Allocate.{
  Os, zero_per_sc, set_per_sc, get_per_sc, or_else, try_range, start_offset, allocate_super_page,
  allocate_slower_from, count_super_page,
}
use sanitizers.Allocator.Allocate.Pages.{range_capacity, page_at, meta_lem}
use sanitizers.Allocator.Allocate.Tries.{try_range-Tried}
use sanitizers.Allocator.Allocate.Outcomes.{
  Tried, found, missed, SameBut, Looked, wrapped, Given, Given-after, Known,
}
use sanitizers.Tags.{get_memory_tag}
use sanitizers.Allocator.Allocate.Fresh.{IsSpare, allocate_super_page_lem}
use sanitizers.Allocator.Allocate.Tagged.{IsGranting}
use native.Mathlib.Nat.{mod-lt}
use native.Mathlib.Decide.{dec_lt, ℕ_discrete}

start_offset_lem :
    (w : World) (n : ℕ)
    → ((start_offset w n).0 ≤ n)
      × ((start_offset w n).1.mem ≡ w.mem)
      × ((start_offset w n).1.allocator ≡ w.allocator)
      × ((start_offset w n).1.local.per_sc ≡ w.local.per_sc)
unfolding start_offset
start_offset_lem w n = elim (ℕ_discrete n 0) [
  | yes empty ↦ let e : (n == 0) ≡ true = ground arith in rw e (omega arith, refl, refl, refl)
  | no nonempty ↦
      let e : (n == 0) ≡ false = ground arith in
      let below : (rand_r w.local.rand).0 % n < n = mod-lt (rand_r w.local.rand).0 (omega arith) in
      rw e (omega (arith, below), refl, refl, refl)
]

-- Every super page of the range is looked at in some round.
wrapped-reaches :
    (n offset p : ℕ) → offset ≤ n → p < n → (j : ℕ) × (j < n) × (wrapped n offset j ≡ p)
wrapped-reaches n offset p h lt = elim (dec_lt p offset) [
  | yes below ↦ (p + n - offset, omega arith, ground arith)
  | no above ↦ (p - offset, omega arith, ground arith)
]

module _ (os : Os) (env : Env) (size sc : ℕ) (d : SizeClassDescr) (descr : IsDescr d)
    (class_of : size_to_size_class env.descrs size ≡ (sc, d)) where
  -- The search of one round.
  searched :
      (w : World) (n : ℕ)
      → n ≤ range_capacity
      → sc < length w.local.per_sc
      → (get_per_sc w sc).last_idx_hint ≤ d.num_chunks
      → (out : Option ℕ × World) × (try_range env sc d n
            (start_offset w n).0
            n
            0
            (start_offset w n).1
          ≡ ok out)
        × Tried env d sc
            (Looked d sc n (start_offset w n).0 0 (start_offset w n).1)
            (start_offset w n).1
            out
  searched w n few slot hint =
      let (small, same_mem, same_allocator, same_per_sc) = start_offset_lem w n in
      try_range-Tried env d sc n (start_offset w n).0 n 0 (start_offset w n).1 descr few small
        (omega arith) (rw same_per_sc slot) (rw same_per_sc hint)

  -- What a search finds, from the world before the first random number.
  search_back :
      (w : World) (n q : ℕ) (w' : World)
      → get_num_super_pages w.allocator d.range_num ≡ n
      → n ≤ range_capacity
      → Given env d sc
          (Looked d sc n (start_offset w n).0 0 (start_offset w n).1)
          (start_offset w n).1
          q
          w'
      → Given env d sc (Known d sc w) w q w'
  search_back w n q w' count few g =
      let (small, same_mem, same_allocator, same_per_sc) = start_offset_lem w n in
      Given-after same_mem same_allocator (ap length same_per_sc)
        (λ sc' ne. ap (λ slots. get_or slots sc' zero_per_sc) same_per_sc)
        (λ sp (j, le, lt, class, at_sp).
          let idx = wrapped n (start_offset w n).0 j in
          let inside : wrapped n (start_offset w n).0 j < n = ground arith in
          let slot =
            meta_lem d.range_num (wrapped n (start_offset w n).0 j) descr.two_ranges
              (omega arith) in
          (
            wrapped n (start_offset w n).0 j,
            rw count inside,
            at_sp,
            ap w.mem (ap (get_shadow_ptr super_page_metadata) at_sp ∙ sym slot)
                ∙ ap (λ (m : Mem). m (add64 (meta d.range_num) (wrapped n (start_offset w n).0 j)))
                    (sym same_mem)
                ∙ class,
          ))
        g

  -- A super page of the class with an available chunk is found.
  found_in :
      (w : World) (n p : ℕ) (out : Option ℕ × World)
      → get_num_super_pages w.allocator d.range_num ≡ n
      → p < n
      → n ≤ range_capacity
      → w.mem (get_shadow_ptr super_page_metadata (page_at d.range_num p)) ≡ sc
      → w.mem (states_of (page_at d.range_num p) d) ≡ available
      → Tried env d sc
          (Looked d sc n (start_offset w n).0 0 (start_offset w n).1)
          (start_offset w n).1
          out
      → (q : ℕ) × (w' : World) × (out ≡ (some q, w')) × Given env d sc (Known d sc w) w q w'
  found_in w n p _ count lt few class free (found q w' g) =
      (q, w', refl, search_back w n q w' count few g)
  found_in w n p _ count lt few class free (missed w' same all) =
      let (small, same_mem, same_allocator, same_per_sc) = start_offset_lem w n in
      let (j, below, at_p) = wrapped-reaches n (start_offset w n).0 p small lt in
      let slot = meta_lem d.range_num p descr.two_ranges (omega arith) in
      let class' : (start_offset w n).1.mem
            (add64 (meta d.range_num) (wrapped n (start_offset w n).0 j))
          ≡ sc =
        rw (same_mem, at_p, slot) class in
      let full =
        all (page_at d.range_num p) (j, omega arith, below, class', rw at_p refl) 0
          descr.some_chunk in
      let first : states_of (page_at d.range_num p) d + 0 ≡ states_of (page_at d.range_num p) d =
        omega arith in
      absurd (rw (same_mem, first) at full free)

  -- A round that finds a chunk, and one that does not.
  round_found :
      (rounds : ℕ) (w : World) (n q : ℕ) (w' : World)
      → get_num_super_pages w.allocator d.range_num ≡ n
      → try_range env sc d n (start_offset w n).0 n 0 (start_offset w n).1 ≡ ok (some q, w')
      → allocate_slower_from os env (suc rounds) size w ≡ ok (some q, w')
  unfolding allocate_slower_from or_else
  round_found rounds w n q w' count eq = rw (class_of, count, eq) refl

  -- The world with the hint reset.
  with_hint_zero : World → World
  with_hint_zero w = set_per_sc w sc (record (get_per_sc w sc) { last_idx_hint = 0 })

  round_missed :
      (rounds : ℕ) (w : World) (n : ℕ) (w2 w3 : World)
      → get_num_super_pages w.allocator d.range_num ≡ n
      → try_range env sc d n (start_offset w n).0 n 0 (start_offset w n).1 ≡ ok (none, w2)
      → allocate_super_page os env w2 size ≡ ok w3
      → allocate_slower_from os env (suc rounds) size w
        ≡ allocate_slower_from os env rounds size (with_hint_zero w3)
  unfolding allocate_slower_from or_else with_hint_zero
  round_missed rounds w n w2 w3 count eq fresh = rw (class_of, count, eq, fresh) refl

  -- The last round finds the new super page, if nothing before it.
  last_round :
      (w : World) (n : ℕ)
      → n < range_capacity
      → get_num_super_pages w.allocator d.range_num ≡ n + 1
      → sc < length w.local.per_sc
      → (get_per_sc w sc).last_idx_hint ≤ d.num_chunks
      → w.mem (get_shadow_ptr super_page_metadata (page_at d.range_num n)) ≡ sc
      → w.mem (states_of (page_at d.range_num n) d) ≡ available
      → (q : ℕ) × (w' : World) × (allocate_slower_from os env 1 size w ≡ ok (some q, w'))
        × Given env d sc (Known d sc w) w q w'
  last_round w n few count slot hint class free =
      let (out, eq, tried) = searched w (n + 1) (omega arith) slot hint in
      let (q, w', e, g) =
        found_in w (n + 1) n out count (omega arith) (omega arith) class free tried in
      (q, w', round_found 0 w (n + 1) q w' count (eq ∙ ap ok e), g)

  counted :
      (a : Allocator) (n : ℕ)
      → n < range_capacity
      → get_num_super_pages a d.range_num ≡ n
      → get_num_super_pages (count_super_page a d.range_num) d.range_num ≡ n + 1
  counted a n few count = elim (ℕ_discrete d.range_num 0) [
    | yes first ↦
        let e : (d.range_num == 0) ≡ true = ground arith in
        let now : a.num_super_pages0 ≡ n = rw e at count in rw e (omega arith)
    | no second ↦
        let e : (d.range_num == 0) ≡ false = ground arith in
        let now : a.num_super_pages1 ≡ n = rw e at count in rw e (omega arith)
  ]

  after_first :
      (w w2 : World) (n : ℕ)
      → IsGranting os
      → env.target.config.use_aliases ≤ 4
      → n < range_capacity
      → get_num_super_pages w.allocator d.range_num ≡ n
      → (d.range_num ≡ 1 → IsSpare w.mem n)
      → sc < length w.local.per_sc
      → SameBut d sc (start_offset w n).1 w2
      → try_range env sc d n (start_offset w n).0 n 0 (start_offset w n).1 ≡ ok (none, w2)
      → (q : ℕ) × (w' : World) × (allocate_slower_from os env 2 size w ≡ ok (some q, w'))
        × Served env d sc (λ sp. ⊥) w q w'
  unfolding with_hint_zero
  after_first w w2 n g few room count spare slot same eq =
      let (small, same_mem, same_allocator, same_per_sc) = start_offset_lem w n in
      let mem2 : w2.mem ≡ w.mem = same.mem ∙ same_mem in
      let count2 : get_num_super_pages w2.allocator d.range_num ≡ n =
        rw (same.allocator, same_allocator) count in
      let (w3, fresh, has) =
        allocate_super_page_lem os env w2 size g few class_of descr count2 room
          (λ second. rw mem2 (spare second)) in
      let slot3 : sc < length w3.local.per_sc = rw (has.per_sc, same.slots, same_per_sc) slot in
      let count3 : get_num_super_pages w3.allocator d.range_num ≡ n + 1 =
        rw has.allocator (counted w2.allocator n room count2) in
      let w4 = with_hint_zero w3 in
      let slot4 : sc < length w4.local.per_sc =
        rw (length-set w3.local.per_sc sc (record (get_per_sc w3 sc) { last_idx_hint = 0 }))
          slot3 in
      let hint4 : (get_per_sc w4 sc).last_idx_hint ≤ d.num_chunks =
        rw
          (get_or-set_self w3.local.per_sc sc (record (get_per_sc w3 sc) { last_idx_hint = 0 })
            zero_per_sc slot3)
          (omega arith) in
      let first : states_of (page_at d.range_num n) d + 0 ≡ states_of (page_at d.range_num n) d =
        omega arith in
      let free : w3.mem (states_of (page_at d.range_num n) d) ≡ available =
        rw first at (has.states 0 descr.some_chunk) in
      let (q, w', found_last, g) = last_round w4 n room count3 slot4 hint4 has.class free in
      (
        q,
        w',
        round_missed 1 w n w2 w3 count eq fresh ∙ found_last,
        record {
          w0 = w4;
          prepared =
              with_page n room count
                (has.allocator
                  ∙ ap (λ a. count_super_page a d.range_num) (same.allocator ∙ same_allocator))
                has.class has.cleared
                (λ b high out ne. has.elsewhere b high out ne ∙ ap (λ (m : Mem). m b) mem2)
                (λ u a inside out.
                  has.tags u a inside out ∙ ap (λ (m : Mem). get_memory_tag env.target m a) mem2);
          slots =
              length-set w3.local.per_sc sc (record (get_per_sc w3 sc) { last_idx_hint = 0 })
              ∙ ap length has.per_sc
              ∙ same.slots
              ∙ ap length same_per_sc;
          others = λ sc' ne.
              get_or-set_ne w3.local.per_sc {i = sc}
                (record (get_per_sc w3 sc) { last_idx_hint = 0 }) zero_per_sc (λ e. ne (sym e))
              ∙ ap (λ slots. get_or slots sc' zero_per_sc) has.per_sc
              ∙ same.others sc' ne
              ∙ ap (λ slots. get_or slots sc' zero_per_sc) same_per_sc;
          given = Given-after refl refl refl (λ sc' ne. refl) (λ sp known. inr known) g;
        },
      )

  by_first :
      (w : World) (n : ℕ)
      → IsGranting os
      → env.target.config.use_aliases ≤ 4
      → n < range_capacity
      → get_num_super_pages w.allocator d.range_num ≡ n
      → (d.range_num ≡ 1 → IsSpare w.mem n)
      → sc < length w.local.per_sc
      → (out : Option ℕ × World)
      → try_range env sc d n (start_offset w n).0 n 0 (start_offset w n).1 ≡ ok out
      → Tried env d sc
          (Looked d sc n (start_offset w n).0 0 (start_offset w n).1)
          (start_offset w n).1
          out
      → (q : ℕ) × (w' : World) × (allocate_slower_from os env 2 size w ≡ ok (some q, w'))
        × Served env d sc (λ sp. ⊥) w q w'
  by_first w n g few room count spare slot _ eq (found q w' given) = (
    q,
    w',
    round_found 1 w n q w' count eq,
    record {
      w0 = w;
      prepared = as_is refl refl;
      slots = refl;
      others = λ sc' ne. refl;
      given =
          Given-after refl refl refl (λ sc' ne. refl) (λ sp known. inr known)
            (search_back w n q w' count (omega arith) given);
    },
  )
  by_first w n g few room count spare slot _ eq (missed w2 same all) =
      after_first w w2 n g few room count spare slot same eq

  pub allocate_slower_from-some :
      (w : World)
      → IsGranting os
      → env.target.config.use_aliases ≤ 4
      → get_num_super_pages w.allocator d.range_num < range_capacity
      → (d.range_num ≡ 1 → IsSpare w.mem (get_num_super_pages w.allocator d.range_num))
      → sc < length w.local.per_sc
      → (get_per_sc w sc).last_idx_hint ≤ d.num_chunks
      → (q : ℕ) × (w' : World) × (allocate_slower_from os env 2 size w ≡ ok (some q, w'))
        × Served env d sc (λ sp. ⊥) w q w'
  allocate_slower_from-some w g few room spare slot hint =
      let n = get_num_super_pages w.allocator d.range_num in
      let (out, eq, tried) = searched w n (omega arith) slot hint in
      by_first w n g few room refl spare slot out eq tried
