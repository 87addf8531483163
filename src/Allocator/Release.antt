-- ===== src/Allocator/Release.antt =====
-- `MemoryReleaseThread` of memtagmalloc/src/mtmalloc.h, without its pauses.
pub mod Reach
use sanitizers.Base.{Mem, Outcome, ok, ◌>>=◌, ◌==◌, if◌then◌else◌, ℕ, ◌%◌, Option, none, some}
use sanitizers.SuperPage.{Env, maybe_release_to_os}
use sanitizers.Allocator.{get_super_page}
use sanitizers.Allocator.State.{World, Allocator, get_num_super_pages}

-- The range and the index of the super page that iteration `iter` tries to release, if any.
unfoldable pub release_target : Allocator → ℕ → Option (ℕ × ℕ)
release_target a iter =
    let range_num = iter % 2 in
    let n = get_num_super_pages a range_num in if n == 0 then none else some (range_num, iter % n)

-- One iteration.
unfoldable pub release_round : (Mem → ℕ → ℕ → Mem) → Env → World → ℕ → Outcome World
release_round madvise env w iter = at_target (release_target w.allocator iter)
  where
    at_target : Option (ℕ × ℕ) → Outcome World
    at_target none = ok w
    at_target (some (range_num, idx)) = do
      sp ← get_super_page range_num idx
      m ← maybe_release_to_os madvise env w.mem sp
      ok (record w { mem = m })
