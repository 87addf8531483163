-- ===== src/Examples/Scanning.antt =====
-- Scans at concrete inputs.
use sanitizers.Base.{
  Outcome, [], ◌∷◌, subst, inl, load64, Mem, ok, ◌+◌, ◌≡◌, ◌==◌, if◌then◌else◌, refl, arith,
}
use sanitizers.Util.{round_up_to}
use sanitizers.Shadow.{is_mine, get_shadow_ptr, get}
use sanitizers.SizeClass.{size_of_inline_meta}
use sanitizers.SuperPage.{states_of, state_array, get_size_class, get_scd}
use sanitizers.SuperPage.State.{used_mixed, quarantined}
use sanitizers.SuperPage.Chunk.{IsSuperPage}
use sanitizers.Allocator.State.{World}
use sanitizers.Allocator.Kill.{
  Process, kill_all_threads_but_myself, contains, visit_thread, visit_all, kill_from,
}
use sanitizers.Allocator.Scans.{scan_range, scan}
use sanitizers.Allocator.Scans.Batches.{one_pass, scan_range-eq-one_pass}
use sanitizers.Allocator.Scans.Pointers.{state_of}
use sanitizers.Allocator.Scans.Live.{IsReached}
use sanitizers.Allocator.Scans.Safety.{IsWorldHeap, WorldFreed, Scanned, scanned, scan_lem}
use sanitizers.Examples.Pages.{env, d, sp, fresh, sp-IsPlaced}
use sanitizers.Examples.Allocation.{start}

-- Two batches, and the round that finds nothing to do.
scan_range-eq-one_pass_example :
    scan_range env 1500 0 0 3 fresh 0 0 ≡ one_pass env 1500 0 0 fresh 0 0
scan_range-eq-one_pass_example =
    scan_range-eq-one_pass env 1500 0 0 2 fresh 0 0 (omega arith) (omega arith)

-- Chunk 0 is in use and its first word points into chunk 5, which is in quarantine like chunk 6.
abbrev linked : Mem
linked a =
    if a == states_of sp d
    then used_mixed
    else if a == states_of sp d + 5
    then quarantined
    else if a == states_of sp d + 6
    then quarantined
    else if a == sp
    then 0x58
    else if a == sp + 5
    then 0x60
    else 0

linked-IsSuperPage : IsSuperPage env linked sp d
linked-IsSuperPage = record { class = known; place = sp-IsPlaced }
  where
    known : get_scd env linked sp ≡ ok d
    known =
        unfold get_scd get_size_class is_mine get get_shadow_ptr state_array size_of_inline_meta
          round_up_to in
        refl

abbrev world : World
world = record start { mem = linked; allocator = record start.allocator { num_super_pages0 = 1 } }

world-IsHeap : IsWorldHeap env world
world-IsHeap = record {
  few0 = omega arith;
  few1 = omega arith;
  pages = λ r i two known.
      let first : r ≡ 0 = ground arith in
      let only : i ≡ 0 = ground arith in rw (first, only) (d, linked-IsSuperPage);
  bytes = λ a high. ground arith;
}

-- The process has no other thread.
abbrev alone : Process
alone = record { my_pid = 7; my_tid = 7; listing = λ k. ok (7 ∷ []) }

signalled : kill_all_threads_but_myself alone ≡ ok (record { threads = 7 ∷ []; signals = [] })
unfolding kill_all_threads_but_myself contains visit_thread visit_all kill_from
signalled = refl

scan_lem_example : Scanned env world (kill_all_threads_but_myself alone) (scan alone env world)
scan_lem_example = scan_lem alone env world world-IsHeap

-- Chunk 5 is referenced, so the scan keeps it in quarantine.
abbrev chunk_5 : WorldFreed env world
chunk_5 = record {
  range_num = 0;
  idx = 0;
  d = d;
  chunk = 5;
  two = omega arith;
  known = omega arith;
  page = linked-IsSuperPage;
  below = omega arith;
  in_quarantine = inl (unfold state_array get_shadow_ptr size_of_inline_meta round_up_to in refl);
}

chunk_5-IsReached : IsReached env linked 1 0 sp d 0 chunk_5
chunk_5-IsReached = record {
  chunk = 0;
  word = 0;
  from = omega arith;
  below = omega arith;
  in_use = unfold state_array get_shadow_ptr size_of_inline_meta round_up_to in refl;
  inside = omega arith;
  points =
      let value : load64 linked sp ≡ 0x6000_0000_0058 =
        unfold load64 state_array get_shadow_ptr size_of_inline_meta round_up_to in refl in
      rw value (omega arith, omega arith, omega arith);
}

state_after :
    {out : Outcome World}
    → Scanned env world (ok (record { threads = 7 ∷ []; signals = [] })) out
    → (w' : World) × (out ≡ ok w') × (w'.mem (state_of chunk_5) ≡ quarantined)
state_after (scanned seen w' kept freed others) = (
  w',
  refl,
  kept chunk_5 (
    0,
    omega arith,
    record {
      idx = 0;
      from = omega arith;
      to = omega arith;
      d = d;
      page = linked-IsSuperPage;
      reached = chunk_5-IsReached;
    },
  ),
)

chunk_5_kept :
    (w' : World) × (scan alone env world ≡ ok w') × (w'.mem (state_of chunk_5) ≡ quarantined)
chunk_5_kept =
    state_after
      (subst (λ out. Scanned env world out (scan alone env world)) signalled scan_lem_example)
