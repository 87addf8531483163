-- ===== src/Threads/Moves.antt =====
-- Every step keeps the invariant.
use sanitizers.Base.{
  if◌then◌else◌, ==_refl, ℕ, ◌<◌, ◌≡◌, refl, sym, ap, subst, ◌∙◌, ◌≢◌, ◌⊎◌, Bool, true, false,
  arith, inr, inl, update,
}
use sanitizers.Threads.Release.{
  Phase-at, release-Inv, count_one-Inv, count_end-Inv, take_win-Inv, take_lose-Inv, take_end-Inv,
  drop_pages-Inv, refill_one-Inv, refill_end-Inv, undo_load-Inv, undo_store-Inv, undo_end-Inv,
}
use sanitizers.Threads.{
  Step, allocate, load_old, store_new, check_old, count_start, count_one, count_end, take_win,
  take_lose, take_end, drop_pages, refill_one, refill_end, undo_load, undo_store, undo_end, Reach,
  start, later, counting, resting, idle, loaded, stored, trapped, nobody, program, freeing, System,
  is_used_state, init,
}
use sanitizers.Threads.Invariant.{
  held, Phase, keeps_states, PcOk, Inv, Phase-update, used_held-update, used_held-holder,
  PcOk-update, pcs-update, not-freeing_of_not_held,
}
use sanitizers.SuperPage.State.{available, used_mixed, used_data, quarantined, releasing}

Inv-init : (n : ℕ) (kept : Bool) → Inv n kept init
Inv-init n kept = record {
  used_held = λ j lt. refl;
  pcs = λ t. tt;
  phase = inl (λ j lt. omega arith);
}

new_state_lem :
    (b : Bool)
    → (is_used_state (if b then used_data else used_mixed) ≡ true)
      × ((if b then used_data else used_mixed) ≢ releasing)
new_state_lem true = (refl, λ e. omega arith)
new_state_lem false = (refl, λ e. omega arith)

freed_lem :
    (v : ℕ) → (v ≡ available) ⊎ (v ≡ quarantined) → (is_used_state v ≡ false) × (v ≢ releasing)
freed_lem v new = (ground arith, omega arith)

used-ne : (v : ℕ) → is_used_state v ≡ true → v ≢ releasing
used-ne v used = ground arith

allocate-Inv :
    {n : ℕ} {kept : Bool} {s : System} (idx v : ℕ)
    → idx < n
    → s.states idx ≡ available
    → is_used_state v ≡ true
    → v ≢ releasing
    → Inv n kept s
    → Inv n kept (record s { states = update s.states idx v; holder = update s.holder idx program })
allocate-Inv {n} {kept} {s} idx v lt free used ne inv = record {
  used_held = used_held-update n idx v program s.states s.holder used inv.used_held;
  pcs = λ t.
      PcOk-update n idx program s.holder t (s.pc t)
        (not-freeing_of_not_held (s.holder idx) t (sym (inv.used_held idx lt) ∙ unused))
        (inv.pcs t);
  phase = Phase-update n idx v kept s.states s.release (λ e. omega arith) ne inv.phase;
}
  where
    unused : is_used_state (s.states idx) ≡ false
    unused = rw free refl

load_old-Inv :
    {n : ℕ} {kept : Bool} {s : System} (t idx v : ℕ)
    → idx < n
    → s.holder idx ≡ program
    → (v ≡ available) ⊎ (v ≡ quarantined)
    → Inv n kept s
    → Inv n kept (record s {
      pc = update s.pc t (loaded idx (s.states idx) v);
      holder = update s.holder idx (freeing t);
    })
load_old-Inv {n} {kept} {s} t idx v lt mine new inv = record {
  used_held = used_held-holder n idx (freeing t) s.states s.holder now_held inv.used_held;
  pcs =
      pcs-update n t (loaded idx (s.states idx) v) s.pc (update s.holder idx (freeing t))
        (lt, rw (==_refl idx) refl, inv.used_held idx lt ∙ now_held, new)
        (λ t' ne.
          PcOk-update n idx (freeing t) s.holder t' (s.pc t') (λ e. not_freeing e) (inv.pcs t'));
  phase = inv.phase;
}
  where
    now_held : held (s.holder idx) ≡ true
    now_held = rw mine refl

    not_freeing : {t' : ℕ} → s.holder idx ≢ freeing t'
    not_freeing {t'} = λ e. let wrong = sym mine ∙ e in cc

store_new-Inv :
    {n : ℕ} {kept : Bool} {s : System} (t idx old v : ℕ)
    → s.pc t ≡ loaded idx old v
    → Inv n kept s
    → Inv n kept (record s {
      states = update s.states idx v;
      pc = update s.pc t (stored old);
      holder = update s.holder idx nobody;
    })
store_new-Inv {n} {kept} {s} t idx old v at_load inv =
    let (lt, mine, used, new) = subst (PcOk n s.holder t) at_load (inv.pcs t) in
    let (unused, ne) = freed_lem v new in
    let in_use : is_used_state (s.states idx) ≡ true = inv.used_held idx lt ∙ ap held mine in
    record {
      used_held = used_held-update n idx v nobody s.states s.holder unused inv.used_held;
      pcs = pcs-update n t (stored old) s.pc (update s.holder idx nobody) used (λ t' other.
          PcOk-update n idx nobody s.holder t' (s.pc t') (λ e. let same = sym mine ∙ e in other cc)
            (inv.pcs t'));
      phase =
          Phase-update n idx v kept s.states s.release (used-ne (s.states idx) in_use) ne inv.phase;
    }

check_old-Inv :
    {n : ℕ} {kept : Bool} {s : System} (t old : ℕ)
    → s.pc t ≡ stored old
    → Inv n kept s
    → Inv n kept (record s { pc = update s.pc t (if is_used_state old then idle else trapped) })
check_old-Inv {n} {kept} {s} t old at_check inv =
    let used = subst (PcOk n s.holder t) at_check (inv.pcs t) in
    record {
      used_held = inv.used_held;
      pcs =
          pcs-update n t (if is_used_state old then idle else trapped) s.pc s.holder (rw used tt)
            (λ t' other. inv.pcs t');
      phase = inv.phase;
    }

freed_value :
    (keep : Bool)
    → ((if keep then quarantined else available) ≡ available)
      ⊎ ((if keep then quarantined else available) ≡ quarantined)
freed_value true = inr refl
freed_value false = inl refl

counts_none :
    {n : ℕ} {kept : Bool} {f : ℕ → ℕ} → Phase n kept f resting → Phase n kept f (counting 0 0)
counts_none (inl clean) = inl clean
counts_none (inr (k, all)) = inr (k, all, refl)

-- Every step of a thread or of the release thread keeps the invariant.
pub Step-Inv :
    {n : ℕ} {shared : Bool} {range_num : ℕ} {s t : System}
    → Step n shared range_num s t
    → Inv n (keeps_states shared range_num) s
    → Inv n (keeps_states shared range_num) t
Step-Inv (allocate s idx data_only lt free) inv =
    let (used, ne) = new_state_lem data_only in allocate-Inv idx _ lt free used ne inv
Step-Inv (load_old s t idx keep lt at_idle mine) inv =
    load_old-Inv t idx _ lt mine (freed_value keep) inv
Step-Inv (store_new s t idx old v at_load) inv = store_new-Inv t idx old v at_load inv
Step-Inv (check_old s t old at_check) inv = check_old-Inv t old at_check inv
Step-Inv (count_start s e) inv =
    release-Inv (counting 0 0) (counts_none (Phase-at resting e inv)) inv
Step-Inv (count_one s i ava e lt) inv = count_one-Inv i ava e lt inv
Step-Inv (count_end s i ava e end) inv = count_end-Inv i ava e inv
Step-Inv (take_win s i taken e lt free) inv = take_win-Inv i taken e lt free inv
Step-Inv (take_lose s i taken e lt busy) inv = take_lose-Inv i taken e lt inv
Step-Inv (take_end s i taken e end) inv = take_end-Inv i taken e end inv
Step-Inv {shared = shared} {range_num = range_num} (drop_pages s e) inv =
    drop_pages-Inv shared range_num refl e inv
Step-Inv (refill_one s i e lt) inv = refill_one-Inv i e lt inv
Step-Inv (refill_end s i e end) inv = refill_end-Inv i e end inv
Step-Inv (undo_load s i e lt) inv = undo_load-Inv i e lt inv
Step-Inv (undo_store s i e) inv = undo_store-Inv i e inv
Step-Inv (undo_end s i e end) inv = undo_end-Inv i e end inv

pub Reach-Inv :
    {n : ℕ} {shared : Bool} {range_num : ℕ} {s : System}
    → Reach n shared range_num s
    → Inv n (keeps_states shared range_num) s
Reach-Inv {n} start = Inv-init n _
Reach-Inv (later r step) = Step-Inv step (Reach-Inv r)
