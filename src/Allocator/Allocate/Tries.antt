-- ===== src/Allocator/Allocate/Tries.antt =====
-- The search of `AllocateSlower` over the super pages of a range.
use sanitizers.Allocator.Allocate.Outcomes.{
  Given-after, IsFull, Looked, SameBut, Tried, found, missed, wrapped,
}
use native.Mathlib.Decide.{dec_lt}
use sanitizers.SuperPage.Free.{new_state_used}
use sanitizers.Base.{sym, get_or-set_ne}
use sanitizers.SizeClass.Shape.{IsDescr}
use sanitizers.Base.{
  zero, suc, ==_iff, ℕ, ◌+◌, ◌≡◌, ◌≢◌, ◌<◌, ◌≤◌, Option, none, some, ok, refl, if◌then◌else◌, ◌==◌,
  length, length-set, get_or-set_self, Bool, not, ◌∙◌, arith, false, Bool-cases, inl, inr,
}
use sanitizers.SizeClass.{SizeClassDescr}
use sanitizers.SuperPage.{Env, used_data, used_mixed}
use sanitizers.SuperPage.State.{used_data, used_mixed}
use sanitizers.SuperPage.Chunk.{IsPlaced}
use sanitizers.SuperPage.Alloc.{Allocated, got, full, try_allocate-Allocated}
use sanitizers.Allocator.Allocate.Pages.{
  page_at, range_capacity, get_super_page_lem, page_at-IsPlaced,
}
use sanitizers.Allocator.State.{World}
use sanitizers.Allocator.Allocate.{
  zero_per_sc, set_per_sc, get_per_sc, try_super_page, add64, meta, or_else, Outcome, try_range,
  suc,
}

module _ (env : Env) (d : SizeClassDescr) (sc : ℕ) where
  pub try_super_page-Tried :
      (w : World) (sp : ℕ)
      → IsPlaced sp d
      → sc < length w.local.per_sc
      → (get_per_sc w sc).last_idx_hint ≤ d.num_chunks
      → (out : Option ℕ × World) × (try_super_page env w sc d sp ≡ ok out)
        × Tried env d sc (λ sp'. sp' ≡ sp) w out
  unfolding try_super_page
  try_super_page-Tried w sp s slot h =
      let data_only = not (w.allocator.data_only_scope_level == 0) in
      let (out, eq, result) =
        try_allocate-Allocated env w.mem data_only (get_per_sc w sc).last_idx_hint s h in
      rw eq (_, refl, conclude data_only out result)
    where
      conclude :
          (data_only : Bool) (out : Option ℕ × ℕ × (ℕ → ℕ))
          → Allocated env w.mem d
              (get_per_sc w sc).last_idx_hint
              sp
              (if data_only then used_data else used_mixed)
              out
          → Tried env d sc
              (λ sp'. sp' ≡ sp)
              w
              (
                out.0,
                set_per_sc
                    (record w { mem = out.2 })
                    sc
                    (record { sp = sp; last_idx_hint = out.1 }),
              )
      conclude data_only _ (got p tag below free read) =
          let state : ℕ = if data_only then used_data else used_mixed in
          let (used, small) = new_state_used data_only in
          found _ _ (record {
            sp = sp;
            chunk = p;
            tag = tag;
            state = state;
            looked = refl;
            below = below;
            free = free;
            used = used;
            small = small;
            stored = refl;
            pointer = refl;
            read = read;
            allocator = refl;
            slots = length-set w.local.per_sc sc (record { sp = sp; last_idx_hint = p + 1 });
            own =
                get_or-set_self w.local.per_sc sc (record { sp = sp; last_idx_hint = p + 1 })
                  zero_per_sc slot;
            others = λ sc' ne.
                get_or-set_ne w.local.per_sc {i = sc} (record { sp = sp; last_idx_hint = p + 1 })
                  zero_per_sc (λ e. ne (sym e));
          })
      conclude data_only _ (full busy) =
          missed _
            (record {
              mem = refl;
              allocator = refl;
              rand = refl;
              slots = length-set w.local.per_sc sc _;
              hint =
                  rw
                    (get_or-set_self w.local.per_sc sc
                      (record { sp = sp; last_idx_hint = (get_per_sc w sc).last_idx_hint })
                      zero_per_sc slot)
                    h;
              others = λ sc' ne.
                  get_or-set_ne w.local.per_sc {i = sc}
                    (record { sp = sp; last_idx_hint = (get_per_sc w sc).last_idx_hint })
                    zero_per_sc (λ e. ne (sym e));
            })
            (λ sp' e. rw e busy)

  then_missed :
      (n offset i : ℕ) (w w1 : World) (out : Option ℕ × World)
      → SameBut d sc w w1
      → (w.mem (add64 (meta d.range_num) (wrapped n offset i)) ≡ sc
          → IsFull w d (page_at d.range_num (wrapped n offset i)))
      → Tried env d sc (Looked d sc n offset (i + 1) w1) w1 out
      → Tried env d sc (Looked d sc n offset i w) w out
  then_missed n offset i w w1 _ same first (found p w' g) = found p w' (
      Given-after same.mem same.allocator same.slots same.others
        (λ sp (j, le, lt, class, at_sp). (j, omega arith, lt, rw same.mem at class, at_sp)) g)
  then_missed n offset i w w1 _ same first (missed w' same' rest) =
      missed w'
        (record {
          mem = same'.mem ∙ same.mem;
          allocator = same'.allocator ∙ same.allocator;
          rand = same'.rand ∙ same.rand;
          slots = same'.slots ∙ same.slots;
          hint = same'.hint;
          others = λ sc' ne. same'.others sc' ne ∙ same.others sc' ne;
        })
        (λ sp (j, le, lt, class, at_sp). elim (dec_lt i j) [
          | yes later ↦
              let class' : w1.mem (add64 (meta d.range_num) (wrapped n offset j)) ≡ sc =
                rw same.mem class in
              λ p below. rw same.mem at (rest sp (j, omega arith, lt, class', at_sp) p below)
          | no now ↦ let here : j ≡ i = omega arith in rw (at_sp, here) (first (rw here at class))
        ])

  or_else_found :
      (p : ℕ) (w : World) (next : World → Outcome (Option ℕ × World))
      → or_else (ok (some p, w)) next ≡ ok (some p, w)
  unfolding or_else
  or_else_found p w next = refl

  or_else_missed :
      (w : World) (next : World → Outcome (Option ℕ × World)) → or_else (ok (none, w)) next ≡ next w
  unfolding or_else
  or_else_missed w next = refl

  -- One round, and what the others make of what it leaves.
  first_then :
      (n offset i : ℕ) (w : World) (next : World → Outcome (Option ℕ × World))
      → i < n
      → w.mem (add64 (meta d.range_num) (wrapped n offset i)) ≡ sc
      → ((w1 : World)
          → SameBut d sc w w1
          → (out : Option ℕ × World) × (next w1 ≡ ok out)
            × Tried env d sc (Looked d sc n offset (i + 1) w1) w1 out)
      → (out : Option ℕ × World)
      → Tried env d sc (λ sp. sp ≡ page_at d.range_num (wrapped n offset i)) w out
      → (out' : Option ℕ × World) × (or_else (ok out) next ≡ ok out')
        × Tried env d sc (Looked d sc n offset i w) w out'
  first_then n offset i w next lt class rest _ (found p w' g) = (
    (some p, w'),
    or_else_found p w' next,
    found p w'
        (Given-after refl refl refl (λ sc' ne. refl) (λ sp e. (i, omega arith, lt, class, e)) g),
  )
  first_then n offset i w next lt class rest _ (missed w1 same first) =
      let (out, eq, tried) = rest w1 same in
      (
        out,
        or_else_missed w1 next ∙ eq,
        then_missed n offset i w w1 out same (λ class. first _ refl) tried,
      )

  pub SameBut-refl :
      (w : World)
      → sc < length w.local.per_sc
      → (get_per_sc w sc).last_idx_hint ≤ d.num_chunks
      → SameBut d sc w w
  SameBut-refl w slot hint = record {
    mem = refl;
    allocator = refl;
    rand = refl;
    slots = refl;
    hint = hint;
    others = λ sc' ne. refl;
  }

  not_class : {c : ℕ} → (c == sc) ≡ false → c ≢ sc
  not_class {c} other = λ e. let yes_eq = (==_iff c sc).1 e in cc

  pub try_range-Tried :
      (n offset rounds i : ℕ) (w : World)
      → IsDescr d
      → n ≤ range_capacity
      → offset ≤ n
      → i + rounds ≡ n
      → sc < length w.local.per_sc
      → (get_per_sc w sc).last_idx_hint ≤ d.num_chunks
      → (out : Option ℕ × World) × (try_range env sc d n offset rounds i w ≡ ok out)
        × Tried env d sc (Looked d sc n offset i w) w out
  unfolding try_range
  try_range-Tried n offset zero i w descr few h e slot hint =
      (_, refl, missed w (SameBut-refl w slot hint) (λ sp (j, le, lt, _, _). absurd (omega arith)))
  try_range-Tried n offset (suc rounds) i w descr few h e slot hint =
      let idx = wrapped n offset i in
      let inside : wrapped n offset i < n = ground arith in
      let next : World → Outcome (Option ℕ × World) =
        λ w1. try_range env sc d n offset rounds (i + 1) w1 in
      let rest : (w1 : World)
          → SameBut d sc w w1
          → (out : Option ℕ × World) × (next w1 ≡ ok out)
            × Tried env d sc (Looked d sc n offset (i + 1) w1) w1 out =
        λ w1 same.
          try_range-Tried n offset rounds (i + 1) w1 descr few h (omega arith) (rw same.slots slot)
            same.hint in
      elim (Bool-cases (w.mem (add64 (meta d.range_num) (wrapped n offset i)) == sc)) [
        | inl class ↦
            let (out, eq, tried) =
              try_super_page-Tried w (page_at d.range_num idx)
                (page_at-IsPlaced idx descr (omega arith)) slot hint in
            rw (class, get_super_page_lem d.range_num idx descr.two_ranges (omega arith), eq)
              (first_then n offset i w next (omega arith)
                ((==_iff (w.mem (add64 (meta d.range_num) (wrapped n offset i))) sc).0 class) rest
                out tried)
        | inr other ↦
            let same : SameBut d sc w w = SameBut-refl w slot hint in
            let (out, eq, tried) = rest w same in
            rw other (
              out,
              or_else_missed w next ∙ eq,
              then_missed n offset i w w out same (λ class. absurd (not_class other class)) tried,
            )
      ]
