-- ===== src/Threads/Invariant.antt =====
-- What holds in every state that the threads reach.
use sanitizers.Base.{
  ◌==◌, ℕ, ◌≤◌, ◌<◌, ◌≡◌, sym, ap, ◌∙◌, ◌≢◌, ◌⊎◌, inl, inr, ◌&&◌, not, Bool, true, false, arith,
  Bool-cases, update,
}
use sanitizers.SuperPage.State.{available, quarantined, releasing}
use sanitizers.Threads.{
  Pc, idle, loaded, stored, trapped, ReleasePc, resting, counting, taking, dropping, refilling,
  undoing, undo_found, Holder, nobody, program, freeing, System, is_used_state,
}
use native.Mathlib.Decide.{ℕ_discrete}

abbrev pub held : Holder → Bool
held nobody = false
held program = true
held (freeing t) = true

-- Dropping the pages leaves the states as they are, and the release thread does not put them back.
abbrev pub keeps_states : Bool → ℕ → Bool
keeps_states shared range_num = shared && not (range_num == 1)

abbrev pub IsClean : ℕ → (ℕ → ℕ) → Type 0
IsClean n f = (j : ℕ) → j < n → f j ≢ releasing

abbrev pub IsReleased : ℕ → (ℕ → ℕ) → Type 0
IsReleased n f = (j : ℕ) → j < n → f j ≡ releasing

-- What the release thread knows of the states: which chunks it has taken. If the states are kept
-- (`kept`), a super page that it has released once stays so.
abbrev pub Phase : ℕ → Bool → (ℕ → ℕ) → ReleasePc → Type 0
Phase n kept f resting = IsClean n f ⊎ ((kept ≡ true) × IsReleased n f)
Phase n kept f (counting i ava) = IsClean n f ⊎ ((kept ≡ true) × IsReleased n f × (ava ≡ 0))
Phase n kept f (taking i taken) =
    (taken ≤ i)
    × (i ≤ n)
    × ((j : ℕ) → i ≤ j → j < n → f j ≢ releasing)
    × (taken ≡ i → (j : ℕ) → j < i → f j ≡ releasing)
Phase n kept f dropping = (j : ℕ) → j < n → f j ≡ releasing
Phase n kept f (refilling i) =
    ((j : ℕ) → j < i → j < n → f j ≢ releasing) × ((j : ℕ) → i ≤ j → j < n → f j ≡ releasing)
Phase n kept f (undoing i) = (j : ℕ) → j < i → j < n → f j ≢ releasing
Phase n kept f (undo_found i) =
    (i < n) × (f i ≡ releasing) × ((j : ℕ) → j < i → j < n → f j ≢ releasing)

-- A thread that has loaded a state frees a chunk in use, and the chunk is that thread's.
abbrev pub PcOk : ℕ → (ℕ → Holder) → ℕ → Pc → Type 0
PcOk n holder t idle = Unit {0}
PcOk n holder t (loaded idx old new_value) =
    (idx < n)
    × (holder idx ≡ freeing t)
    × (is_used_state old ≡ true)
    × ((new_value ≡ available) ⊎ (new_value ≡ quarantined))
PcOk n holder t (stored old) = is_used_state old ≡ true
PcOk n holder t trapped = ⊥

pub record Inv (n : ℕ) (kept : Bool) (s : System) : Type 0 where
  pub used_held : (j : ℕ) → j < n → is_used_state (s.states j) ≡ held (s.holder j)
  pub pcs : (t : ℕ) → PcOk n s.holder t (s.pc t)
  pub phase : Phase n kept s.states s.release

-- A state that is not `releasing` may become another that is not, whatever the release thread does.
pub Phase-update :
    (n idx v : ℕ) (kept : Bool) (f : ℕ → ℕ) (r : ReleasePc)
    → f idx ≢ releasing
    → v ≢ releasing
    → Phase n kept f r
    → Phase n kept (update f idx v) r
Phase-update n idx v kept f resting ne ne' (inl h) = inl (λ j lt. let e = h j lt in ground arith)
Phase-update n idx v kept f resting ne ne' (inr (k, h)) =
    inr (k, λ j lt. let e = h j lt in ground arith)
Phase-update n idx v kept f (counting i ava) ne ne' (inl h) =
    inl (λ j lt. let e = h j lt in ground arith)
Phase-update n idx v kept f (counting i ava) ne ne' (inr (k, h, zero_ava)) =
    inr (k, λ j lt. let e = h j lt in ground arith, zero_ava)
Phase-update n idx v kept f (taking i taken) ne ne' (small, inside, rest, all) = (
  small,
  inside,
  λ j le lt. let e = rest j le lt in ground arith,
  λ same j lt. let e = all same j lt in ground arith,
)
Phase-update n idx v kept f dropping ne ne' h = λ j lt. let e = h j lt in ground arith
Phase-update n idx v kept f (refilling i) ne ne' (before, after) = (
  λ j lt lt'. let e = before j lt lt' in ground arith,
  λ j le lt. let e = after j le lt in ground arith,
)
Phase-update n idx v kept f (undoing i) ne ne' h = λ j lt lt'. let e = h j lt lt' in ground arith
Phase-update n idx v kept f (undo_found i) ne ne' (inside, now, before) =
    (inside, ground arith, λ j lt lt'. let e = before j lt lt' in ground arith)

pub used_held-update :
    (n idx v : ℕ) (h : Holder) (f : ℕ → ℕ) (g : ℕ → Holder)
    → is_used_state v ≡ held h
    → ((j : ℕ) → j < n → is_used_state (f j) ≡ held (g j))
    → (j : ℕ) → j < n
    → is_used_state (update f idx v j) ≡ held (update g idx h j)
used_held-update n idx v h f g e all j lt = elim (Bool-cases (j == idx)) [
  | inl same ↦ rw same e
  | inr other ↦ rw other (all j lt)
]

pub used_held-states :
    (n idx v : ℕ) (f : ℕ → ℕ) (g : ℕ → Holder)
    → is_used_state v ≡ is_used_state (f idx)
    → ((j : ℕ) → j < n → is_used_state (f j) ≡ held (g j))
    → (j : ℕ) → j < n
    → is_used_state (update f idx v j) ≡ held (g j)
used_held-states n idx v f g e all j lt = elim (ℕ_discrete j idx) [
  | yes same ↦
      let here : (j == idx) ≡ true = ground arith in
      let at_idx : f idx ≡ f j = ap f (sym same) in rw here (e ∙ ap is_used_state at_idx ∙ all j lt)
  | no other ↦ let there : (j == idx) ≡ false = ground arith in rw there (all j lt)
]

pub used_held-holder :
    (n idx : ℕ) (h : Holder) (f : ℕ → ℕ) (g : ℕ → Holder)
    → held (g idx) ≡ held h
    → ((j : ℕ) → j < n → is_used_state (f j) ≡ held (g j))
    → (j : ℕ) → j < n
    → is_used_state (f j) ≡ held (update g idx h j)
used_held-holder n idx h f g e all j lt = elim (ℕ_discrete j idx) [
  | yes same ↦
      let here : (j == idx) ≡ true = ground arith in
      let at_idx : g j ≡ g idx = ap g same in rw here (all j lt ∙ ap held at_idx ∙ e)
  | no other ↦ let there : (j == idx) ≡ false = ground arith in rw there (all j lt)
]

-- A thread keeps what it knows when the holder of a chunk that it does not free changes.
pub PcOk-update :
    (n idx : ℕ) (h : Holder) (g : ℕ → Holder) (t : ℕ) (pc : Pc)
    → g idx ≢ freeing t
    → PcOk n g t pc
    → PcOk n (update g idx h) t pc
PcOk-update n idx h g t idle ne ok_pc = tt
PcOk-update n idx h g t (loaded j old v) ne (inside, mine, used, new) = (
  inside,
  elim (ℕ_discrete j idx) [
    | yes same ↦ absurd (ne (sym (ap g same) ∙ mine))
    | no other ↦ let there : (j == idx) ≡ false = ground arith in rw there mine
  ],
  used,
  new,
)
PcOk-update n idx h g t (stored old) ne ok_pc = ok_pc
PcOk-update n idx h g t trapped ne ok_pc = ok_pc

-- One thread moves.
pub pcs-update :
    (n t : ℕ) (pc : Pc) (pcs : ℕ → Pc) (g : ℕ → Holder)
    → PcOk n g t pc
    → ((t' : ℕ) → t' ≢ t → PcOk n g t' (pcs t'))
    → (t' : ℕ) → PcOk n g t' (update pcs t pc t')
pcs-update n t pc pcs g mine others t' = elim (ℕ_discrete t' t) [
  | yes same ↦ let here : (t' == t) ≡ true = ground arith in rw (here, same) mine
  | no other ↦ let there : (t' == t) ≡ false = ground arith in rw there (others t' other)
]

pub not-freeing_of_not_held : (h : Holder) (t : ℕ) → held h ≡ false → h ≢ freeing t
not-freeing_of_not_held h t e = λ same. let wrong = ap held same in cc
