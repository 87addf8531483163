-- ===== src/Allocator/Scans/Safety.antt =====
-- A whole `Scan` frees nothing that is still pointed to.
use sanitizers.Base.{
  Outcome-cases, Mem, Outcome, ok, trap, ℕ, ◌+◌, ◌<◌, ◌≡◌, ◌⊎◌, refl, sym, ap, ◌∙◌, inl, inr, arith,
  add64,
}
use native.Mathlib.Decide.{ℕ_discrete}
use sanitizers.Shadow.{get_shadow_ptr, super_page_metadata}
use sanitizers.SuperPage.{Env, swept}
use sanitizers.SuperPage.State.{available, quarantined, marked, swept}
use sanitizers.SuperPage.Sweep.{swept_cases}
use sanitizers.Allocator.State.{World}
use sanitizers.Allocator.Kill.{Process, Seen, kill_all_threads_but_myself}
use sanitizers.Allocator.Scans.{post_scan_range, post_scan, scan}
use sanitizers.Allocator.Scans.Marks.{
  IsState, InQuarantine-Advances, Advances, KeepsPlain, KeepsPlain-Advances, Calm, Calm-trans,
  Calm-Advances, InQuarantine, slot-not-IsState,
}
use sanitizers.Allocator.Scans.Pointers.{IsHeap, Freed, state_of}
use sanitizers.Allocator.Scans.Passes.{IsReferenced, scan_loop-Advances}
use sanitizers.Allocator.Scans.Sweeps.{
  Located, state_at, SameClasses, SweepsRun, post_scan_range-SweepsRun,
}

module _ (env : Env) (m0 : Mem) (n0 n1 : ℕ) (heap : IsHeap env m0 n0 n1) where
  SameClasses-Advances : (m : Mem) → Advances env m0 m0 m → SameClasses env m0 n0 n1 heap m
  SameClasses-Advances m adv sp d placed = elim (adv (get_shadow_ptr super_page_metadata sp)) [
    | inl same ↦ same
    | inr (state, _, _) ↦ absurd (slot-not-IsState placed state)
  ]

  -- Both ranges are swept.
  all_swept :
      (m m1 m2 : Mem)
      → SweepsRun env m0 n0 n1 heap 0 0 (0 + n0) m m1
      → SweepsRun env m0 n0 n1 heap 1 0 (0 + n1) m1 m2
      → (l : Located env m0 n0 n1) → m2 (state_at l) ≡ swept (m (state_at l))
  all_swept m m1 m2 first second l = elim (ℕ_discrete l.range_num 0) [
    | yes in_first ↦
        let inside : l.idx < n0 = rw in_first at l.known in
        (second l).1 (λ (e, _, _). omega (arith, e, in_first))
        ∙ (first l).0 (in_first, omega arith, omega (arith, inside))
    | no other ↦
        let in_second : l.range_num ≡ 1 = omega (arith, other, l.two) in
        let inside : l.idx < n1 = rw in_second at l.known in
        (second l).0 (in_second, omega arith, omega (arith, inside))
        ∙ ap swept ((first l).1 (λ (e, _, _). other e))
  ]

  post_scan_lem :
      (w : World)
      → w.allocator.num_super_pages0 ≡ n0
      → w.allocator.num_super_pages1 ≡ n1
      → Advances env m0 m0 w.mem
      → (bytes : ℕ) × (m' : Mem) × (post_scan env w ≡ ok (bytes, record w { mem = m' }))
        × SameClasses env m0 n0 n1 heap m'
        × Calm w.mem m'
        × KeepsPlain env m0 w.mem m'
        × ((l : Located env m0 n0 n1) → m' (state_at l) ≡ swept (w.mem (state_at l)))
  unfolding post_scan
  post_scan_lem w e0 e1 adv =
      let (bytes0, m1, eq1, same1, calm1, plain1, first) =
        post_scan_range-SweepsRun env m0 n0 n1 heap 0 n0 w.mem 0 0 (omega arith) (omega arith)
          (SameClasses-Advances w.mem adv) in
      let (bytes1, m2, eq2, same2, calm2, plain2, second) =
        post_scan_range-SweepsRun env m0 n0 n1 heap 1 n1 m1 0 bytes0 (omega arith) (omega arith)
          same1 in
      let eq1' : post_scan_range env 0 w.allocator.num_super_pages0 w.mem 0 0 ≡ ok (bytes0, m1) =
        ap (λ n. post_scan_range env 0 n w.mem 0 0) e0 ∙ eq1 in
      let eq2' : post_scan_range env 1 w.allocator.num_super_pages1 m1 0 bytes0 ≡ ok (bytes1, m2) =
        ap (λ n. post_scan_range env 1 n m1 0 bytes0) e1 ∙ eq2 in
      (
        bytes1,
        m2,
        rw (eq1', eq2') refl,
        same2,
        Calm-trans calm1 calm2,
        λ a plain. plain2 a plain ∙ plain1 a plain,
        all_swept w.mem m1 m2 first second,
      )

after_sweep :
    (now was : ℕ) → now ≡ swept was → InQuarantine was → (now ≡ available) ⊎ (now ≡ quarantined)
after_sweep now was e q = elim q [
  | inl plain ↦ inl (e ∙ (swept_cases was).0 plain)
  | inr is_marked ↦ inr (e ∙ (swept_cases was).1 is_marked)
]

untouched :
    {env : Env} {m0 : Mem} (a now was : ℕ)
    → (now ≡ was) ⊎ (IsState env m0 a × (was ≡ quarantined) × (now ≡ marked))
    → ¬ InQuarantine was
    → swept now ≡ was
untouched a now was changed out = elim changed [
  | inl same ↦
      (swept_cases now).2 (λ e. out (inl (sym same ∙ e))) (λ e. out (inr (sym same ∙ e))) ∙ same
  | inr (_, q, _) ↦ absurd (out (inl q))
]

-- The chunk in quarantine among all chunks.
abbrev location : {env : Env} {m : Mem} {n0 n1 : ℕ} → Freed env m n0 n1 → Located env m n0 n1
location v = record {
  range_num = v.range_num;
  idx = v.idx;
  d = v.d;
  chunk = v.chunk;
  two = v.two;
  known = v.known;
  page = v.page;
  below = v.below;
}

-- The numbers of super pages of a world.
abbrev pub IsWorldHeap : Env → World → Type 0
IsWorldHeap env w = IsHeap env w.mem w.allocator.num_super_pages0 w.allocator.num_super_pages1

abbrev pub WorldFreed : Env → World → Type 0
WorldFreed env w = Freed env w.mem w.allocator.num_super_pages0 w.allocator.num_super_pages1

abbrev pub WorldLocated : Env → World → Type 0
WorldLocated env w = Located env w.mem w.allocator.num_super_pages0 w.allocator.num_super_pages1

-- The numbers of super pages and what the threads keep are the same.
abbrev pub SameCounts : World → World → Type 0
SameCounts w w' =
    (w'.allocator.num_super_pages0 ≡ w.allocator.num_super_pages0)
    × (w'.allocator.num_super_pages1 ≡ w.allocator.num_super_pages1)
    × (w'.local ≡ w.local)

-- A whole scan, once the other threads were signalled, ends; it changes the memory and the counts of
-- the scan only.
pub scan-effect :
    (process : Process) (env : Env) (w : World) {seen : Seen}
    → kill_all_threads_but_myself process ≡ ok seen
    → (heap : IsWorldHeap env w)
    → (w' : World) × (scan process env w ≡ ok w')
      × ((v : WorldFreed env w) → IsReferenced v → w'.mem (state_of v) ≡ quarantined)
      × ((v : WorldFreed env w)
          → (w'.mem (state_of v) ≡ available) ⊎ (w'.mem (state_of v) ≡ quarantined))
      × ((l : WorldLocated env w)
          → ¬ InQuarantine (w.mem (state_at l))
          → w'.mem (state_at l) ≡ w.mem (state_at l))
      × SameClasses env w.mem w.allocator.num_super_pages0 w.allocator.num_super_pages1 heap w'.mem
      × Calm w.mem w'.mem
      × KeepsPlain env w.mem w.mem w'.mem
      × SameCounts w w'
unfolding scan
scan-effect process env w signalled heap =
    let n0 = w.allocator.num_super_pages0 in
    let n1 = w.allocator.num_super_pages1 in
    let start = record w {
      allocator = record w.allocator {
        scan_pos0 = 0;
        scan_pos1 = 0;
        num_scans = add64 w.allocator.num_scans 1;
      };
    } in
    let (count, pos0, pos1, m1, eq1, adv, all) = scan_loop-Advances env start heap refl refl in
    let after = record start {
      mem = m1;
      allocator = record start.allocator { scan_pos0 = pos0; scan_pos1 = pos1 };
    } in
    let (bytes, m2, eq2, same, calm, plain, each) =
      post_scan_lem env w.mem n0 n1 heap after refl refl adv in
    (
      record after {
        mem = m2;
        allocator = record after.allocator {
          last_quarantine_size = bytes;
          bytes_in_quarantine = bytes;
        };
      },
      rw (signalled, eq1, eq2) refl,
      λ v r. each (location v) ∙ (swept_cases (m1 (state_of v))).1 (all v r),
      λ v.
          after_sweep (m2 (state_of v)) (m1 (state_of v)) (each (location v))
            (InQuarantine-Advances (state_of v) adv v.in_quarantine),
      λ l out.
          each l
          ∙ untouched (state_at l) (m1 (state_at l)) (w.mem (state_at l)) (adv (state_at l)) out,
      same,
      Calm-trans (Calm-Advances adv) calm,
      λ a out. plain a out ∙ KeepsPlain-Advances adv a out,
      (refl, refl, refl),
    )

-- What a scan gives, by what `KillAllThreadsButMyself` gave.
pub data Scanned (env : Env) (w : World) : Outcome Seen → Outcome World → Type 0 where
  not_signalled : Scanned env w trap trap
  scanned :
      (seen : Seen) (w' : World)
      → ((v : WorldFreed env w) → IsReferenced v → w'.mem (state_of v) ≡ quarantined)
      → ((v : WorldFreed env w)
          → (w'.mem (state_of v) ≡ available) ⊎ (w'.mem (state_of v) ≡ quarantined))
      → ((l : WorldLocated env w)
          → ¬ InQuarantine (w.mem (state_at l))
          → w'.mem (state_at l) ≡ w.mem (state_at l))
      → Scanned env w (ok seen) (ok w')

scan-trap :
    (process : Process) (env : Env) (w : World)
    → kill_all_threads_but_myself process ≡ trap
    → scan process env w ≡ trap
unfolding scan
scan-trap process env w failed = rw failed refl

-- A scan of super pages whose classes are known, in which the other threads do not take part, traps if
-- `KillAllThreadsButMyself` traps, and otherwise comes to its end. A chunk in quarantine, where some
-- aligned word of a used chunk that may hold pointers is an untagged address of its start or past
-- it, is then in quarantine afterwards; every chunk in quarantine stays there or becomes available;
-- and the state of every other chunk is what it was.
pub scan_lem :
    (process : Process) (env : Env) (w : World)
    → IsWorldHeap env w
    → Scanned env w (kill_all_threads_but_myself process) (scan process env w)
scan_lem process env w heap = elim (Outcome-cases (kill_all_threads_but_myself process)) [
  | inl (seen, signalled) ↦
      let (w', eq, referenced, freed, kept, _, _, _, _) =
        scan-effect process env w signalled heap in
      rw (signalled, eq) (scanned seen w' referenced freed kept)
  | inr failed ↦ rw (failed, scan-trap process env w failed) not_signalled
]
