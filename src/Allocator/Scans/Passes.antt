-- ===== src/Allocator/Scans/Passes.antt =====
-- `ScanLoop` marks every chunk in quarantine that some chunk in use points to.
use sanitizers.Base.{Mem, ok, ℕ, zero, suc, ◌+◌, ◌*◌, ◌/◌, ◌-◌, ◌≤◌, ◌<◌, ◌≡◌, refl, arith}
use native.Mathlib.Decide.{ℕ_discrete}
use sanitizers.SizeClass.{SizeClassDescr}
use sanitizers.SuperPage.{Env}
use sanitizers.SuperPage.State.{marked}
use sanitizers.SuperPage.Chunk.{IsSuperPage}
use sanitizers.Allocator.State.{World}
use sanitizers.Allocator.Allocate.Pages.{range_capacity, page_at, get_super_page_lem}
use sanitizers.Allocator.Scans.{mark_batch, scan_range, scan_loop, pos_increment}
use sanitizers.Allocator.Scans.Batches.{one_pass, scan_range-eq-one_pass}
use sanitizers.Allocator.Scans.Marks.{
  same_class, Advances, Advances-refl, Advances-trans, marked-Advances,
}
use sanitizers.Allocator.Scans.Pointers.{IsHeap, Freed, state_of, few_pages}
use sanitizers.Allocator.Scans.Ranges.{pages_of}
use sanitizers.Allocator.Scans.Live.{IsReached, mark_all_live_pointers-Advances}

-- Some chunk in use of a super page of the range points to `v`, in a super page from `first` on.
pub record IsReachedIn (env : Env) (m : Mem) (n0 n1 range_num first last : ℕ)
    (v : Freed env m n0 n1) : Type 0 where
  pub idx : ℕ
  pub from : first ≤ idx
  pub to : idx < last
  pub d : SizeClassDescr
  pub page : IsSuperPage env m (page_at range_num idx) d
  pub reached : IsReached env m n0 n1 (page_at range_num idx) d 0 v

-- Some chunk in use points to `v`.
abbrev pub IsReferenced : {env : Env} {m : Mem} {n0 n1 : ℕ} → Freed env m n0 n1 → Type 0
IsReferenced {env} {m} {n0} {n1} v =
    (range_num : ℕ) × (range_num ≤ 1)
    × IsReachedIn env m n0 n1 range_num 0 (pages_of n0 n1 range_num) v

module _ (env : Env) (m0 : Mem) (n0 n1 : ℕ) (heap : IsHeap env m0 n0 n1) where
  IsReached-at :
      (range_num : ℕ) {idx idx' : ℕ} {d d' : SizeClassDescr} (v : Freed env m0 n0 n1)
      → idx' ≡ idx
      → d' ≡ d
      → IsReached env m0 n0 n1 (page_at range_num idx') d' 0 v
      → IsReached env m0 n0 n1 (page_at range_num idx) d 0 v
  IsReached-at range_num v e e' r = rw (e, e') at r

  mark_batch-Advances :
      (range_num rounds : ℕ) (m : Mem) (idx : ℕ)
      → range_num ≤ 1
      → idx + rounds ≤ pages_of n0 n1 range_num
      → Advances env m0 m0 m
      → (m' : Mem) × (mark_batch env n0 n1 range_num rounds m idx ≡ ok m')
        × Advances env m0 m m'
        × ((v : Freed env m0 n0 n1)
            → IsReachedIn env m0 n0 n1 range_num idx (idx + rounds) v
            → m' (state_of v) ≡ marked)
  unfolding mark_batch
  mark_batch-Advances range_num zero m idx two some_left adv =
      (m, refl, Advances-refl env m0 m, λ v r. absurd (omega (arith, r.from, r.to)))
  mark_batch-Advances range_num (suc rounds) m idx two some_left adv =
      let known : idx < pages_of n0 n1 range_num = omega arith in
      let (d, page) = heap.pages range_num idx two known in
      let (m1, eq1, adv1, first) = mark_all_live_pointers-Advances env m0 n0 n1 heap page m adv in
      let (m2, eq2, adv2, rest) =
        mark_batch-Advances range_num rounds m1 (idx + 1) two (omega arith)
          (Advances-trans env m0 adv adv1) in
      rw
        (
          get_super_page_lem range_num idx two (few_pages env m0 n0 n1 heap range_num idx known),
          eq1,
          eq2,
        )
        (
          m2,
          refl,
          Advances-trans env m0 adv1 adv2,
          λ v r. elim (ℕ_discrete r.idx idx) [
            | yes now ↦ marked-Advances (state_of v) adv2 (
                first v
                  (IsReached-at range_num v now (same_class (rw now at r.page) page) r.reached))
            | no later ↦ rest v (record {
              idx = r.idx;
              from = omega (arith, r.from, later);
              to = omega (arith, r.to);
              d = r.d;
              page = r.page;
              reached = r.reached;
            })
          ],
        )

  -- All batches of one range.
  scan_range-Advances :
      (range_num : ℕ) (m : Mem) (done : ℕ)
      → range_num ≤ 1
      → Advances env m0 m0 m
      → (count pos : ℕ) × (m' : Mem) × (scan_range env n0 n1 range_num
            (pages_of n0 n1 range_num / pos_increment + 2)
            m
            0
            done
          ≡ ok (count, pos, m'))
        × Advances env m0 m m'
        × ((v : Freed env m0 n0 n1)
            → IsReachedIn env m0 n0 n1 range_num 0 (pages_of n0 n1 range_num) v
            → m' (state_of v) ≡ marked)
  unfolding one_pass
  scan_range-Advances range_num m done two adv =
      let n = pages_of n0 n1 range_num in
      let few : n ≤ range_capacity = ground (arith, heap.few0, heap.few1) in
      let (m', eq, adv', all) = mark_batch-Advances range_num n m 0 two (omega arith) adv in
      let passes =
        scan_range-eq-one_pass env n0 n1 range_num (n / pos_increment + 1) m 0 done (omega arith)
          (omega (arith, few)) in
      let rounds : n / pos_increment + 2 ≡ suc (n / pos_increment + 1) = omega arith in
      let whole : n - 0 ≡ n = omega arith in
      let none_before : 0 + n ≡ n = omega arith in
      (
        done + n,
        0 + 1024 * ((n + 1023) / 1024 + 1),
        m',
        rw (rounds, passes, whole, eq) refl,
        adv',
        λ v r. all v (rw none_before r),
      )

first_range : 0 ≤ 1
first_range = omega arith

second_range : 1 ≤ 1
second_range = omega arith

-- `ScanLoop` from the beginning: it comes to its end, only states in quarantine change, and each
-- chunk in quarantine to which some chunk in use points is marked.
pub scan_loop-Advances :
    (env : Env) (w : World)
    (heap : IsHeap env w.mem w.allocator.num_super_pages0 w.allocator.num_super_pages1)
    → w.allocator.scan_pos0 ≡ 0
    → w.allocator.scan_pos1 ≡ 0
    → (count pos0 pos1 : ℕ) × (m' : Mem) × (scan_loop env w
        ≡ ok (
          count,
          record w {
            mem = m';
            allocator = record w.allocator { scan_pos0 = pos0; scan_pos1 = pos1 };
          },
        ))
      × Advances env w.mem w.mem m'
      × ((v : Freed env w.mem w.allocator.num_super_pages0 w.allocator.num_super_pages1)
          → IsReferenced v
          → m' (state_of v) ≡ marked)
unfolding scan_loop
scan_loop-Advances env w heap e0 e1 =
    let n0 = w.allocator.num_super_pages0 in
    let n1 = w.allocator.num_super_pages1 in
    let (done0, p0, m1, eq1, adv1, first) =
      scan_range-Advances env w.mem n0 n1 heap 0 w.mem 0 first_range
        (Advances-refl env w.mem w.mem) in
    let (done1, p1, m2, eq2, adv2, second) =
      scan_range-Advances env w.mem n0 n1 heap 1 m1 done0 second_range adv1 in
    let eq1' : scan_range env n0 n1 0 (n0 / pos_increment + 2) w.mem w.allocator.scan_pos0 0
        ≡ ok (done0, p0, m1) =
      rw e0 eq1 in
    let eq2' : scan_range env n0 n1 1 (n1 / pos_increment + 2) m1 w.allocator.scan_pos1 done0
        ≡ ok (done1, p1, m2) =
      rw e1 eq2 in
    (
      done1,
      p0,
      p1,
      m2,
      rw (eq1', eq2') refl,
      Advances-trans env w.mem adv1 adv2,
      λ v (r, two, reached). elim (ℕ_discrete r 0) [
        | yes in_first ↦ marked-Advances (state_of v) adv2 (first v (rw in_first at reached))
        | no other ↦
            let in_second : r ≡ 1 = omega (arith, two, other) in second v (rw in_second at reached)
      ],
    )
