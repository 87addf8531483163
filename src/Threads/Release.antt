-- ===== src/Threads/Release.antt =====
-- Every step of the release thread keeps the invariant.
use sanitizers.Base.{
  ℕ, ◌≡◌, ◌≤◌, ◌<◌, ◌+◌, if◌then◌else◌, ◌==◌, ◌||◌, ==_iff, Bool, true, false, refl, ==_refl, subst,
  ◌∙◌, arith, Bool-cases, inl, inr,
}
use sanitizers.SuperPage.State.{available, releasing}
use sanitizers.Threads.{
  System, ReleasePc, resting, counting, taking, dropping, refilling, undoing, undo_found, update,
  is_used_state,
}
use sanitizers.Threads.Invariant.{Inv, Phase, used_held-states, keeps_states, IsReleased}
use native.Mathlib.Decide.{dec_lt, ℕ_discrete}

-- The phase that follows, once it is known where the release thread stood.
pub Phase-at :
    {n : ℕ} {kept : Bool} {s : System} (r : ReleasePc)
    → s.release ≡ r
    → Inv n kept s
    → Phase n kept s.states r
Phase-at {n} {kept} {s} r e inv = subst (Phase n kept s.states) e inv.phase

-- Only the release thread moves.
pub release-Inv :
    {n : ℕ} {kept : Bool} {s : System} (r : ReleasePc)
    → Phase n kept s.states r
    → Inv n kept s
    → Inv n kept (record s { release = r })
release-Inv r phase inv = record { used_held = inv.used_held; pcs = inv.pcs; phase = phase }

-- It moves and changes a state that is not in use to another such.
store-Inv :
    {n : ℕ} {kept : Bool} {s : System} (i v : ℕ) (r : ReleasePc)
    → is_used_state v ≡ is_used_state (s.states i)
    → Phase n kept (update s.states i v) r
    → Inv n kept s
    → Inv n kept (record s { states = update s.states i v; release = r })
store-Inv {n} {kept} {s} i v r e phase inv = record {
  used_held = used_held-states n i v s.states s.holder e inv.used_held;
  pcs = inv.pcs;
  phase = phase;
}

-- One more state is counted: in a released super page none is available.
pub count_one-Inv :
    {n : ℕ} {kept : Bool} {s : System} (i ava : ℕ)
    → s.release ≡ counting i ava
    → i < n
    → Inv n kept s
    → Inv n kept
        (record s { release = counting (i + 1) (if s.states i == available then ava + 1 else ava) })
count_one-Inv {n} {kept} {s} i ava e inside inv =
    release-Inv _ (next (Phase-at (counting i ava) e inv)) inv
  where
    next :
        Phase n kept s.states (counting i ava)
        → Phase n kept s.states
            (counting (i + 1) (if s.states i == available then ava + 1 else ava))
    next (inl clean) = inl clean
    next (inr (k, all, none_counted)) =
        let other : (s.states i == available) ≡ false = rw (all i inside) refl in
        inr (k, all, rw other none_counted)

pub count_end-Inv :
    {n : ℕ} {kept : Bool} {s : System} (i ava : ℕ)
    → s.release ≡ counting i ava
    → Inv n kept s
    → Inv n kept (record s { release = if ava == n then taking 0 0 else resting })
count_end-Inv {n} {kept} {s} i ava e inv =
    release-Inv _ (next (ava == n) (==_iff ava n).0 (Phase-at (counting i ava) e inv)) inv
  where
    next :
        (b : Bool)
        → (b ≡ true → ava ≡ n)
        → Phase n kept s.states (counting i ava)
        → Phase n kept s.states (if b then taking 0 0 else resting)
    next true whole (inl clean) =
        (omega arith, omega arith, λ j le lt. clean j lt, λ same j lt. absurd (omega arith))
    next true whole (inr (k, all, none_counted)) =
        let full = whole refl in
        (
          omega arith,
          omega arith,
          λ j le lt. absurd (omega (arith, full, none_counted, lt)),
          λ same j lt. absurd (omega arith),
        )
    next false whole (inl clean) = inl clean
    next false whole (inr (k, all, none_counted)) = inr (k, all)

pub take_win-Inv :
    {n : ℕ} {kept : Bool} {s : System} (i taken : ℕ)
    → s.release ≡ taking i taken
    → i < n
    → s.states i ≡ available
    → Inv n kept s
    → Inv n kept
        (record s { states = update s.states i releasing; release = taking (i + 1) (taken + 1) })
take_win-Inv {n} {kept} {s} i taken e lt' free inv =
    let (small, in_page, rest, all) = Phase-at (taking i taken) e inv in
    let unused : is_used_state releasing ≡ is_used_state (s.states i) = rw free refl in
    store-Inv i releasing (taking (i + 1) (taken + 1)) unused
      (
        omega arith,
        omega arith,
        λ j le lt. let ne = rest j (omega arith) lt in ground arith,
        λ same j lt. elim (dec_lt j i) [
          | yes before ↦ let was = all (omega arith) j before in ground arith
          | no last ↦ let here : j ≡ i = omega arith in rw (here, ==_refl i) refl
        ],
      )
      inv

pub take_lose-Inv :
    {n : ℕ} {kept : Bool} {s : System} (i taken : ℕ)
    → s.release ≡ taking i taken
    → i < n
    → Inv n kept s
    → Inv n kept (record s { release = taking (i + 1) taken })
take_lose-Inv {n} {kept} {s} i taken e lt' inv =
    let (small, in_page, rest, all) = Phase-at (taking i taken) e inv in
    release-Inv {n = n} {s = s} (taking (i + 1) taken)
      (
        omega arith,
        omega arith,
        λ j le lt. rest j (omega arith) lt,
        λ same j lt. absurd (omega arith),
      )
      inv

pub take_end-Inv :
    {n : ℕ} {kept : Bool} {s : System} (i taken : ℕ)
    → s.release ≡ taking i taken
    → n ≤ i
    → Inv n kept s
    → Inv n kept (record s { release = if taken == n then dropping else undoing 0 })
take_end-Inv {n} {kept} {s} i taken e end inv = elim (ℕ_discrete taken n) [
  | yes whole ↦
      let same : (taken == n) ≡ true = ground arith in
      rw same
        (release-Inv dropping (λ j lt. all (omega (arith, in_page)) j (omega (arith, in_page))) inv)
  | no some_left ↦
      let other : (taken == n) ≡ false = ground arith in
      rw other (release-Inv (undoing 0) (λ j lt lt'. absurd (omega arith)) inv)
]
  where
    open_phase : Phase n kept s.states (taking i taken)
    open_phase = Phase-at (taking i taken) e inv

    in_page : i ≤ n
    in_page = open_phase.1

    all : taken ≡ i → (j : ℕ) → j < i → s.states j ≡ releasing
    all = open_phase.3

-- All states become available.
cleared-Inv :
    {n : ℕ} {kept : Bool} {s : System}
    → ((j : ℕ) → j < n → s.states j ≡ releasing)
    → Inv n kept s
    → Inv n kept (record s { states = λ i. available; release = resting })
cleared-Inv {n} {kept} {s} taken inv = record {
  used_held = λ j lt. unused j lt ∙ inv.used_held j lt;
  pcs = inv.pcs;
  phase = inl (λ j lt. omega arith);
}
  where
    unused : (j : ℕ) → j < n → is_used_state available ≡ is_used_state (s.states j)
    unused j lt = rw (taken j lt) refl

pub drop_pages-Inv :
    {n : ℕ} {kept : Bool} {s : System} (shared : Bool) (range_num : ℕ)
    → kept ≡ keeps_states shared range_num
    → s.release ≡ dropping
    → Inv n kept s
    → Inv n kept (record s {
      states = if shared || (range_num == 1) then s.states else (λ i. available);
      release = if range_num == 1 then refilling 0 else resting;
    })
drop_pages-Inv {n} {kept} {s} shared range_num is_kept e inv = elim (Bool-cases (range_num == 1)) [
  | inl second ↦
      let states_stay : (shared || (range_num == 1)) ≡ true = ground arith in
      rw (states_stay, second)
        (release-Inv (refilling 0) (λ j lt. absurd (omega arith), λ j le lt. taken j lt) inv)
  | inr first ↦ elim (Bool-cases shared) [
    | inl stays ↦
        let states_stay : (shared || (range_num == 1)) ≡ true = ground arith in
        let same : keeps_states shared range_num ≡ true = ground arith in
        rw (states_stay, first) (release-Inv resting (inr (is_kept ∙ same, taken)) inv)
    | inr dropped ↦
        let states_go : (shared || (range_num == 1)) ≡ false = ground arith in
        rw (states_go, first) (cleared-Inv taken inv)
  ]
]
  where
    taken : IsReleased n s.states
    taken = Phase-at dropping e inv

pub refill_one-Inv :
    {n : ℕ} {kept : Bool} {s : System} (i : ℕ)
    → s.release ≡ refilling i
    → i < n
    → Inv n kept s
    → Inv n kept (record s { states = update s.states i available; release = refilling (i + 1) })
refill_one-Inv {n} {kept} {s} i e inside inv =
    let (before, after) = Phase-at (refilling i) e inv in
    let here = after i (omega arith) inside in
    let unused : is_used_state available ≡ is_used_state (s.states i) = rw here refl in
    store-Inv i available (refilling (i + 1)) unused
      (
        λ j lt lt'. elim (dec_lt j i) [
          | yes lower ↦ let ne = before j lower lt' in ground arith
          | no last ↦ let same : j ≡ i = omega arith in rw (same, ==_refl i) (λ w. omega arith)
        ],
        λ j le lt. let was = after j (omega arith) lt in ground arith,
      )
      inv

pub refill_end-Inv :
    {n : ℕ} {kept : Bool} {s : System} (i : ℕ)
    → s.release ≡ refilling i
    → n ≤ i
    → Inv n kept s
    → Inv n kept (record s { release = resting })
refill_end-Inv i e end inv =
    let (before, after) = Phase-at (refilling i) e inv in
    release-Inv resting (inl (λ j lt. before j (omega arith) lt)) inv

pub undo_load-Inv :
    {n : ℕ} {kept : Bool} {s : System} (i : ℕ)
    → s.release ≡ undoing i
    → i < n
    → Inv n kept s
    → Inv n kept
        (record s { release = if s.states i == releasing then undo_found i else undoing (i + 1) })
undo_load-Inv {n} {kept} {s} i e inside inv =
    let before = Phase-at (undoing i) e inv in
    elim (Bool-cases (s.states i == releasing)) [
      | inl found ↦ rw found (release-Inv (undo_found i) (inside, (==_iff _ _).0 found, before) inv)
      | inr other ↦ rw other (
          release-Inv (undoing (i + 1))
            (λ j lt lt'. elim (dec_lt j i) [
              | yes lower ↦ before j lower lt'
              | no last ↦ let same : j ≡ i = omega arith in rw same (ground arith)
            ])
            inv)
    ]

pub undo_store-Inv :
    {n : ℕ} {kept : Bool} {s : System} (i : ℕ)
    → s.release ≡ undo_found i
    → Inv n kept s
    → Inv n kept (record s { states = update s.states i available; release = undoing (i + 1) })
undo_store-Inv {n} {kept} {s} i e inv =
    let (inside, here, before) = Phase-at (undo_found i) e inv in
    let unused : is_used_state available ≡ is_used_state (s.states i) = rw here refl in
    store-Inv i available (undoing (i + 1)) unused
      (λ j lt lt'. elim (dec_lt j i) [
        | yes lower ↦ let ne = before j lower lt' in ground arith
        | no last ↦ let same : j ≡ i = omega arith in rw (same, ==_refl i) (λ w. omega arith)
      ])
      inv

pub undo_end-Inv :
    {n : ℕ} {kept : Bool} {s : System} (i : ℕ)
    → s.release ≡ undoing i
    → n ≤ i
    → Inv n kept s
    → Inv n kept (record s { release = resting })
undo_end-Inv i e end inv =
    let before = Phase-at (undoing i) e inv in
    release-Inv resting (inl (λ j lt. before j (omega arith) lt)) inv
