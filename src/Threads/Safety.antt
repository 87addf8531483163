-- ===== src/Threads/Safety.antt =====
-- What no interleaving of allocations, frees and the release thread between scans can do.
use sanitizers.Base.{
  ℕ, ◌≡◌, ◌<◌, ◌≢◌, sym, ap, subst, ◌∙◌, false, refl, Bool, ◌⊎◌, true, inl, inr, arith,
}
use sanitizers.SuperPage.State.{available, releasing}
use sanitizers.Threads.{
  System, Reach, Holder, nobody, program, freeing, loaded, trapped, resting, dropping,
  is_used_state,
}
use sanitizers.Threads.Invariant.{held, keeps_states, PcOk, Phase, IsClean, IsReleased}
use sanitizers.Threads.Moves.{Reach-Inv}

nobody_of : (h : Holder) → held h ≡ false → h ≡ nobody
nobody_of nobody e = refl
nobody_of program e = cc
nobody_of (freeing t) e = cc

freeing-injective : {t t' : ℕ} → freeing t ≡ freeing t' → t ≡ t'
freeing-injective e = cc

-- In every interleaving of allocations, frees and the release thread on a super page that no scan
-- marks or sweeps: when the release thread is about to drop the pages, every chunk is in the state
-- that it has given it and no chunk is held by the program or by a thread that frees it.
pub dropping-unheld :
    {n : ℕ} {shared : Bool} {range_num : ℕ} {s : System}
    → Reach n shared range_num s
    → s.release ≡ dropping
    → (idx : ℕ) → idx < n
    → (s.states idx ≡ releasing) × (s.holder idx ≡ nobody)
dropping-unheld {n} {shared} {range_num} {s} r e idx lt =
    let inv = Reach-Inv r in
    let taken = subst (Phase n (keeps_states shared range_num) s.states) e inv.phase idx lt in
    (taken, nobody_of (s.holder idx) (sym (inv.used_held idx lt) ∙ ap is_used_state taken))

-- A chunk that is available, and so may be handed out, is held by nobody.
pub available-unheld :
    {n : ℕ} {shared : Bool} {range_num : ℕ} {s : System}
    → Reach n shared range_num s
    → (idx : ℕ) → idx < n
    → s.states idx ≡ available
    → s.holder idx ≡ nobody
available-unheld {s = s} r idx lt free =
    nobody_of (s.holder idx) (sym ((Reach-Inv r).used_held idx lt) ∙ ap is_used_state free)

resting_cases :
    {n : ℕ} {f : ℕ → ℕ} (shared : Bool) (range_num : ℕ)
    → Phase n (keeps_states shared range_num) f resting
    → IsClean n f ⊎ ((shared ≡ true) × (range_num ≢ 1) × IsReleased n f)
resting_cases shared range_num (inl clean) = inl clean
resting_cases shared range_num (inr (kept, all)) = inr (ground arith, ground arith, all)

-- In every interleaving of allocations, frees and the release thread on a super page that no scan
-- marks or sweeps: if the program gives each pointer it has to one free, no thread traps on a double
-- free and two threads never free one chunk. While the release thread rests no chunk is left in the
-- state that only it gives, except on shared pages of the first range: there it may be that all of
-- them are left in it.
pub no_false_alarm :
    {n : ℕ} {shared : Bool} {range_num : ℕ} {s : System}
    → Reach n shared range_num s
    → ((t : ℕ) → s.pc t ≢ trapped)
      × ((t t' idx old old' v v' : ℕ)
          → s.pc t ≡ loaded idx old v
          → s.pc t' ≡ loaded idx old' v'
          → t ≡ t')
      × (s.release ≡ resting
          → ((idx : ℕ) → idx < n → s.states idx ≢ releasing)
            ⊎ ((shared ≡ true)
                × (range_num ≢ 1)
                × ((idx : ℕ) → idx < n → s.states idx ≡ releasing)))
no_false_alarm {n} {shared} {range_num} {s} r =
    let inv = Reach-Inv r in
    (
      λ t e. subst (PcOk n s.holder t) e (inv.pcs t),
      λ t t' idx old old' v v' e e'.
          let (_, mine, _, _) = subst (PcOk n s.holder t) e (inv.pcs t) in
          let (_, yours, _, _) = subst (PcOk n s.holder t') e' (inv.pcs t') in
          freeing-injective (sym mine ∙ yours),
      λ e.
          resting_cases shared range_num
            (subst (Phase n (keeps_states shared range_num) s.states) e inv.phase),
    )
