-- ===== src/Allocator/State.antt =====
-- `Statistics`, `ThreadLocalAllocator` and the fields of `Allocator` that are not for threads.
use sanitizers.Base.{
  get_or, set, Mem, ◌==◌, if◌then◌else◌, u32, add64, ℕ, ◌+◌, ◌*◌, ◌/◌, ◌^◌, List, [], ◌∷◌,
}

pub record Statistics : Type 0 where
  pub allocs_per_size_class : List ℕ
  pub accesses_per_size_class : List ℕ
  pub large_allocs : ℕ
  pub access_other : ℕ

-- `sp` is 0 before the thread has a super page of the class.
pub record PerSc : Type 0 where
  pub sp : ℕ
  pub last_idx_hint : ℕ

pub record ThreadLocal : Type 0 where
  pub rand : ℕ
  pub local_quarantine_size : ℕ
  pub per_sc : List PerSc
  pub stats : Statistics

-- Each pair of fields is an array with an entry for each range.
pub record Allocator : Type 0 where
  pub stats : Statistics
  pub num_scans : ℕ
  pub num_super_pages0 : ℕ
  pub num_super_pages1 : ℕ
  pub bytes_in_quarantine : ℕ
  pub scan_pos0 : ℕ
  pub scan_pos1 : ℕ
  pub last_quarantine_size : ℕ
  pub data_only_scope_level : ℕ

-- The memory, the allocator and the state of the thread that calls it.
pub record World : Type 0 where
  pub mem : Mem
  pub allocator : Allocator
  pub local : ThreadLocal

abbrev pub get_num_super_pages : Allocator → ℕ → ℕ
get_num_super_pages a range_num = if range_num == 0 then a.num_super_pages0 else a.num_super_pages1

-- `array[i]++`
abbrev pub bump : List ℕ → ℕ → List ℕ
bump counts i = set counts i (add64 (get_or counts i 0) 1)

abbrev pub with_stats : World → Statistics → World
with_stats w stats = record w { local = record w.local { stats = stats } }

unfoldable pub merge_lists : List ℕ → List ℕ → List ℕ
merge_lists [] other = []
merge_lists (n ∷ ns) other = add64 n (get_or other 0 0) ∷ merge_lists ns (rest_of other)
  where
    rest_of : List ℕ → List ℕ
    rest_of [] = []
    rest_of (k ∷ ks) = ks

unfoldable pub merge_from : Statistics → Statistics → Statistics
merge_from s other = record {
  allocs_per_size_class = merge_lists s.allocs_per_size_class other.allocs_per_size_class;
  accesses_per_size_class = merge_lists s.accesses_per_size_class other.accesses_per_size_class;
  large_allocs = add64 s.large_allocs other.large_allocs;
  access_other = add64 s.access_other other.access_other;
}

unfoldable pub rand_r : ℕ → ℕ × ℕ
rand_r state = let new_state = u32 (state * 1103515245 + 12345) in (new_state / 2 ^ 16, new_state)
