-- ===== src/Allocator/Scans.antt =====
-- `ScanLoop`, `PostScan`, `Scan` and `QuarantineAndMaybeScan` of memtagmalloc/src/mtmalloc.h, in
-- a process whose other threads do not help with the scan when the signal comes to them.
pub mod Batches
pub mod Marks
pub mod Ranges
pub mod Pointers
pub mod Live
pub mod Passes
pub mod Sweeps
pub mod Safety
use sanitizers.Base.{
  Mem, Outcome, ok, trap, ◌>>=◌, ltb, leb, ◌==◌, if◌then◌else◌, add64, mul64, ℕ, zero, suc, ◌+◌,
  ◌-◌, ◌/◌, true, false,
}
use sanitizers.Layout.{size_of_local_quarantine}
use sanitizers.SizeClass.{chunk_size}
use sanitizers.SuperPage.{
  quarantined, Env, get_scd, count_states, move_from_quarantine_to_available,
  mark_all_live_pointers,
}
use sanitizers.Allocator.{Allocator, World, get_super_page, allocator_quarantine}
use sanitizers.SuperPage.State.{quarantined}
use sanitizers.Allocator.State.{Allocator, World}
use sanitizers.Allocator.Kill.{Process, kill_all_threads_but_myself}

abbrev pub pos_increment : ℕ
pos_increment = 1024

abbrev pub set_scan_pos : Allocator → ℕ → ℕ → Allocator
set_scan_pos a range_num p =
    if range_num == 0 then record a { scan_pos0 = p } else record a { scan_pos1 = p }

-- The super pages of one batch, `rounds` of them from `idx` on.
unfoldable pub mark_batch : Env → ℕ → ℕ → ℕ → ℕ → Mem → ℕ → Outcome Mem
mark_batch env n0 n1 range_num zero m idx = ok m
mark_batch env n0 n1 range_num (suc rounds) m idx = do
  sp ← get_super_page range_num idx
  m' ← mark_all_live_pointers env m sp n0 n1
  mark_batch env n0 n1 range_num rounds m' (idx + 1)

-- The batches of one range from `p` on, and the super pages done; a batch takes one of the
-- `rounds`, and the last one finds nothing to do.
unfoldable pub scan_range : Env → ℕ → ℕ → ℕ → ℕ → Mem → ℕ → ℕ → Outcome (ℕ × ℕ × Mem)
scan_range env n0 n1 range_num zero m p done = trap
scan_range env n0 n1 range_num (suc rounds) m p done =
    let n = if range_num == 0 then n0 else n1 in
    let end_idx = if ltb (add64 p pos_increment) n then add64 p pos_increment else n in
    let p' = add64 p pos_increment in
    if leb n p
    then ok (done, p', m)
    else mark_batch env n0 n1 range_num (end_idx - p) m p >>= λ m'.
        scan_range env n0 n1 range_num rounds m' p' (done + (end_idx - p))

unfoldable pub scan_loop : Env → World → Outcome (ℕ × World)
scan_loop env w = do
  let a = w.allocator
  let n0 = a.num_super_pages0
  let n1 = a.num_super_pages1
  (done0, p0, m0) ← scan_range env n0 n1 0 (n0 / pos_increment + 2) w.mem a.scan_pos0 0
  (done1, p1, m1) ← scan_range env n0 n1 1 (n1 / pos_increment + 2) m0 a.scan_pos1 done0
  ok (done1, record w { mem = m1; allocator = set_scan_pos (set_scan_pos a 0 p0) 1 p1 })

-- The super pages of one range, `rounds` of them from `idx` on, and the bytes in quarantine.
unfoldable pub post_scan_range : Env → ℕ → ℕ → Mem → ℕ → ℕ → Outcome (ℕ × Mem)
post_scan_range env range_num zero m idx bytes = ok (bytes, m)
post_scan_range env range_num (suc rounds) m idx bytes = do
  sp ← get_super_page range_num idx
  scd ← get_scd env m sp
  m' ← move_from_quarantine_to_available env m sp
  now ← count_states env m' sp quarantined
  post_scan_range env range_num rounds m' (idx + 1) (add64 bytes (mul64 (chunk_size scd) now))

unfoldable pub post_scan : Env → World → Outcome (ℕ × World)
post_scan env w = do
  (bytes0, m0) ← post_scan_range env 0 w.allocator.num_super_pages0 w.mem 0 0
  (bytes1, m1) ← post_scan_range env 1 w.allocator.num_super_pages1 m0 0 bytes0
  ok (bytes1, record w { mem = m1 })

-- The result of `KillAllThreadsButMyself` is only printed.
unfoldable pub scan : Process → Env → World → Outcome World
scan process env w = do
  seen ← kill_all_threads_but_myself process
  let start = record w {
    allocator = record w.allocator {
      scan_pos0 = 0;
      scan_pos1 = 0;
      num_scans = add64 w.allocator.num_scans 1;
    };
  }
  (done, w') ← scan_loop env start
  (bytes, w'') ← post_scan env w'
  ok (record w'' {
    allocator = record w''.allocator { last_quarantine_size = bytes; bytes_in_quarantine = bytes };
  })

unfoldable pub quarantine_and_maybe_scan : Process → Env → World → ℕ → ℕ → Outcome World
quarantine_and_maybe_scan process env w ptr max_quarantine_size =
    allocator_quarantine env w ptr >>= λ w'.
    let local_size = w'.local.local_quarantine_size in
    let total = add64 w'.allocator.bytes_in_quarantine local_size in
    let limit = add64 max_quarantine_size w'.allocator.last_quarantine_size in
    let moved = record w' {
      allocator = record w'.allocator { bytes_in_quarantine = total };
      local = record w'.local { local_quarantine_size = 0 };
    } in
    if ltb local_size size_of_local_quarantine
    then ok w'
    else if ltb limit total
    then (if ltb total limit then ok moved else scan process env moved)
    else ok moved
