-- ===== src/Examples/Allocation.antt =====
-- An allocation by a thread that has no super page yet.
use sanitizers.Base.{
  leb, ltb, ◌&&◌, if◌then◌else◌, ok, replicate, get_or, arith, ℕ, zero, suc, ◌+◌, ◌≡◌, inl, refl,
  true, some, [],
}
use sanitizers.SizeClass.{num_size_classes}
use sanitizers.Allocator.State.{World}
use sanitizers.Allocator.Allocate.{Os, zero_per_sc, allocate}
use sanitizers.Allocator.Allocate.Tagged.{IsGranting}
use sanitizers.Allocator.Allocate.Served.{IsReady}
use sanitizers.Allocator.Allocate.Returns.{allocate-some}
use sanitizers.Examples.Pages.{env}

abbrev pub os : Os
os = record {
  map_fixed = λ m a n. some (λ b. if leb a b && ltb b (a + n) then 0 else m b);
  remap = λ sp a. true;
  thread_id = 1;
}

abbrev pub start : World
start = record {
  mem = λ a. 0;
  allocator = record {
    stats = record {
      allocs_per_size_class = [];
      accesses_per_size_class = [];
      large_allocs = 0;
      access_other = 0;
    };
    num_scans = 0;
    num_super_pages0 = 0;
    num_super_pages1 = 0;
    bytes_in_quarantine = 0;
    scan_pos0 = 0;
    scan_pos1 = 0;
    last_quarantine_size = 0;
    data_only_scope_level = 0;
  };
  local = record {
    rand = 0;
    local_quarantine_size = 0;
    per_sc = replicate num_size_classes zero_per_sc;
    stats = record {
      allocs_per_size_class = [];
      accesses_per_size_class = [];
      large_allocs = 0;
      access_other = 0;
    };
  };
}

pub get_or-replicate : (n i : ℕ) → get_or (replicate n zero_per_sc) i zero_per_sc ≡ zero_per_sc
get_or-replicate zero i = refl
get_or-replicate (suc n) zero = refl
get_or-replicate (suc n) (suc i) = get_or-replicate n i

pub os-IsGranting : IsGranting os
os-IsGranting = record { maps = λ m a n. (_, refl, λ b. refl); remaps = λ sp a. refl }

start-IsReady : IsReady os env start
start-IsReady = record {
  filled = refl;
  few = omega arith;
  granting = os-IsGranting;
  slots = refl;
  hints = λ sc inside. rw (get_or-replicate num_size_classes sc) (omega arith);
  cached = λ sc inside. inl (rw (get_or-replicate num_size_classes sc) refl);
  room0 = omega arith;
  room1 = omega arith;
  spare = λ b lower upper. refl;
}

allocate-some_example : (ptr : ℕ) × (w' : World) × (allocate os env start 100 ≡ ok (some ptr, w'))
allocate-some_example = allocate-some os env start 100 start-IsReady (omega arith) (omega arith)
