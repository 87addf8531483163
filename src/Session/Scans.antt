-- ===== src/Session/Scans.antt =====
-- A scan, also one that `QuarantineAndMaybeScan` starts, keeps the invariant of the allocator and the
-- used chunks.
use sanitizers.Base.{
  Mem, ok, if◌then◌else◌, ltb, ℕ, ◌≡◌, inl, inr, Bool, true, false, refl, sym, ap, ◌∙◌, arith,
  add64, subst,
}
use sanitizers.Layout.{size_of_local_quarantine}
use sanitizers.SuperPage.{Env}
use sanitizers.SuperPage.Free.{is_used}
use sanitizers.Allocator.{allocator_quarantine, ThreadLocal}
use sanitizers.Allocator.State.{World, ThreadLocal}
use sanitizers.Base.{ok-injective, bind_ok}
use sanitizers.Allocator.Untag.{UsesAliases}
use sanitizers.Allocator.Kill.{Process, Seen, kill_all_threads_but_myself}
use sanitizers.Allocator.Scans.{scan, quarantine_and_maybe_scan}
use sanitizers.Allocator.Scans.Marks.{InQuarantine}
use sanitizers.Allocator.Scans.Safety.{scan-effect}
use sanitizers.Allocator.Scans.Sweeps.{state_at, address_at}
use sanitizers.Tags.Frames.{above-KeepsTags}
use sanitizers.SuperPage.Chunk.{chunk-InAllocator}
use sanitizers.Session.{Block, IsAllocator, IsHeld}
use sanitizers.Session.Frames.{KeepsContents, chunk_plain, located_kept, Kept, Kept-same, Kept-then}
use sanitizers.Session.Stores.{IsHeap-kept}
use sanitizers.Session.Frees.{
  IsAllocator-kept, FreesOnly, allocator_quarantine-FreesOnly, allocator_quarantine-held,
}

used-not-InQuarantine : {s : ℕ} → is_used s ≡ true → ¬ InQuarantine s
used-not-InQuarantine in_use (inl e) = let no_use = rw e at in_use in ground arith
used-not-InQuarantine in_use (inr e) = let no_use = rw e at in_use in ground arith

module _ (process : Process) (env : Env) where
  -- After a scan from the invariant the invariant holds, and every used chunk is kept.
  scan_signalled :
      (w : World) {seen : Seen}
      → kill_all_threads_but_myself process ≡ ok seen
      → IsAllocator env w
      → (w' : World) × (scan process env w ≡ ok w')
        × IsAllocator env w'
        × Kept env w w' (λ a. ⊥)
        × KeepsContents env w w' (λ a. ⊥)
  scan_signalled w signalled inv =
      let (w', eq, _, _, others, classes, calm, plain, (same0, same1, local)) =
        scan-effect process env w signalled inv.heap in
      let n0 = w.allocator.num_super_pages0 in
      let n1 = w.allocator.num_super_pages1 in
      let k : Kept env w w' (λ a. ⊥) = record {
        more0 = rw same0 (omega arith);
        more1 = rw same1 (omega arith);
        classes =
            λ r i two known. let (d, page) = inv.heap.pages r i two known in classes _ d page.place;
        used = λ l in_use out. others l (used-not-InQuarantine in_use);
        tags = λ l in_use out u.
            above-KeepsTags env.target 0 0 w.mem w'.mem (λ a low. (calm a).2 low) u (address_at l)
              (chunk-InAllocator l.page.place l.chunk l.below) (inr (omega arith));
      } in
      (
        w',
        eq,
        IsAllocator-kept inv (ap (λ (t : ThreadLocal). t.per_sc) local)
            (rw (same0, same1)
              (IsHeap-kept env w.mem n0 n1 inv.heap w'.mem k.classes
                (λ a high. (calm a).0 (inv.heap.bytes a high))))
            (rw same1 (λ b lo hi. (calm b).1 (inv.spare b lo hi))) k,
        k,
        λ l in_use out a lo hi. plain a (chunk_plain l a lo hi),
      )

  -- A scan that ends has signalled the other threads.
  scan_signals :
      (w w' : World)
      → scan process env w ≡ ok w'
      → (seen : Seen) × (kill_all_threads_but_myself process ≡ ok seen)
  unfolding scan
  scan_signals w w' eq =
      let (seen, signalled, _) = bind_ok (kill_all_threads_but_myself process) _ eq in
      (seen, signalled)

  pub scan-IsAllocator :
      (w w' : World)
      → IsAllocator env w
      → scan process env w ≡ ok w'
      → IsAllocator env w' × Kept env w w' (λ a. ⊥) × KeepsContents env w w' (λ a. ⊥)
  scan-IsAllocator w w' inv eq =
      let (seen, signalled) = scan_signals w w' eq in
      let (w1, eq', inv', k, contents) = scan_signalled w signalled inv in
      let same : w1 ≡ w' = ok-injective (sym eq' ∙ eq) in
      subst
        (λ (v : World). IsAllocator env v × Kept env w v (λ a. ⊥) × KeepsContents env w v (λ a. ⊥))
        same (inv', k, contents)

-- Counters may differ.
counts_change :
    (env : Env) (w w' : World) (a : ℕ) (w1 : World)
    → FreesOnly env w a w1
    → w'.mem ≡ w1.mem
    → w'.allocator.num_super_pages0 ≡ w1.allocator.num_super_pages0
    → w'.allocator.num_super_pages1 ≡ w1.allocator.num_super_pages1
    → w'.local.per_sc ≡ w1.local.per_sc
    → FreesOnly env w a w'
counts_change env w w' a w1 (inv, k, contents) mem same0 same1 slots =
    let k' = Kept-same env w1 w' mem same0 same1 in
    (
      IsAllocator-kept inv slots (rw (mem, same0, same1) inv.heap) (rw (mem, same1) inv.spare) k',
      Kept-then k k',
      λ l in_use out b lo hi. ap (λ (m : Mem). m b) mem ∙ contents l in_use out b lo hi,
    )

-- The last branches of `QuarantineAndMaybeScan`.
maybe_scan :
    (process : Process) (env : Env) (w moved w1 w' : World) (a : ℕ) (few below above : Bool)
    → FreesOnly env w a w1
    → FreesOnly env w a moved
    → (if few
        then ok w1
        else if above
        then (if below then ok moved else scan process env moved)
        else ok moved)
      ≡ ok w'
    → FreesOnly env w a w'
maybe_scan process env w moved w1 w' a true below above first second eq =
    rw (ok-injective eq) at first
maybe_scan process env w moved w1 w' a false below false first second eq =
    rw (ok-injective eq) at second
maybe_scan process env w moved w1 w' a false true true first second eq =
    rw (ok-injective eq) at second
maybe_scan process env w moved w1 w' a false false true first (inv, k, contents) eq =
    let (inv', k', contents') = scan-IsAllocator process env moved w' inv eq in
    (
      inv',
      Kept-then k k',
      λ l in_use out b lo hi.
          let same_state = k.used l in_use out in
          contents' (located_kept k.more0 k.more1 k.classes l) (rw same_state in_use)
            (λ none_freed. none_freed) b lo hi
          ∙ contents l in_use out b lo hi,
    )

pub quarantine_and_maybe_scan-FreesOnly :
    (process : Process) (env : Env) (w w' : World) {b : Block} (max_quarantine_size : ℕ)
    → UsesAliases env.target
    → IsAllocator env w
    → (h : IsHeld env w b) → quarantine_and_maybe_scan process env w b.0 max_quarantine_size ≡ ok w'
    → FreesOnly env w (state_at h.place) w'
unfolding quarantine_and_maybe_scan
quarantine_and_maybe_scan-FreesOnly process env w w' {b} max_quarantine_size u inv h eq =
    let (w1, first, rest) = bind_ok (allocator_quarantine env w b.0) _ eq in
    let freed = allocator_quarantine-FreesOnly env w w1 u inv h first in
    let moved : World = record w1 {
      allocator = record w1.allocator {
        bytes_in_quarantine = add64 w1.allocator.bytes_in_quarantine w1.local.local_quarantine_size;
      };
      local = record w1.local { local_quarantine_size = 0 };
    } in
    let total = add64 w1.allocator.bytes_in_quarantine w1.local.local_quarantine_size in
    let limit = add64 max_quarantine_size w1.allocator.last_quarantine_size in
    maybe_scan process env w moved w1 w' (state_at h.place)
      (ltb w1.local.local_quarantine_size size_of_local_quarantine) (ltb total limit)
      (ltb limit total) freed
      (counts_change env w moved (state_at h.place) w1 freed refl refl refl refl) rest

-- The last branches come to an end.
maybe_scan-ends :
    (process : Process) (env : Env) (moved w1 : World) (few below above : Bool) {seen : Seen}
    → kill_all_threads_but_myself process ≡ ok seen
    → IsAllocator env moved
    → (w' : World) × ((if few
          then ok w1
          else if above
          then (if below then ok moved else scan process env moved)
          else ok moved)
        ≡ ok w')
maybe_scan-ends process env moved w1 true below above signalled inv = (w1, refl)
maybe_scan-ends process env moved w1 false below false signalled inv = (moved, refl)
maybe_scan-ends process env moved w1 false true true signalled inv = (moved, refl)
maybe_scan-ends process env moved w1 false false true signalled inv =
    let (w', eq, _, _, _) = scan_signalled process env moved signalled inv in (w', eq)

-- A block that the program holds can be quarantined, with a scan or without, where the other threads
-- can be signalled.
pub quarantine_and_maybe_scan-held :
    (process : Process) (env : Env) (w : World) {b : Block} (max_quarantine_size : ℕ) {seen : Seen}
    → kill_all_threads_but_myself process ≡ ok seen
    → UsesAliases env.target
    → IsAllocator env w
    → IsHeld env w b
    → (w' : World) × (quarantine_and_maybe_scan process env w b.0 max_quarantine_size ≡ ok w')
unfolding quarantine_and_maybe_scan
quarantine_and_maybe_scan-held process env w {b} max_quarantine_size signalled u inv h =
    let (w1, first) = allocator_quarantine-held env w u h in
    let freed = allocator_quarantine-FreesOnly env w w1 u inv h first in
    let moved : World = record w1 {
      allocator = record w1.allocator {
        bytes_in_quarantine = add64 w1.allocator.bytes_in_quarantine w1.local.local_quarantine_size;
      };
      local = record w1.local { local_quarantine_size = 0 };
    } in
    let (inv', _, _) = counts_change env w moved (state_at h.place) w1 freed refl refl refl refl in
    let total = add64 w1.allocator.bytes_in_quarantine w1.local.local_quarantine_size in
    let limit = add64 max_quarantine_size w1.allocator.last_quarantine_size in
    let (w', rest) =
      maybe_scan-ends process env moved w1
        (ltb w1.local.local_quarantine_size size_of_local_quarantine) (ltb total limit)
        (ltb limit total) signalled inv' in
    (w', rw first rest)
