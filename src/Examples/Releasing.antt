-- ===== src/Examples/Releasing.antt =====
-- The release thread, with four super pages in the first range.
use sanitizers.Base.{ℕ, ◌%◌, ◌≡◌, ◌↔◌, ◌⊎◌, some, arith}
use sanitizers.Allocator.State.{Allocator, get_num_super_pages}
use sanitizers.Allocator.Release.{release_target}
use sanitizers.Allocator.Release.Reach.{release_target_iff}
use sanitizers.Examples.Allocation.{start}

abbrev four_pages : Allocator
four_pages = record start.allocator { num_super_pages0 = 4 }

release_target_iff_example :
    ((iter : ℕ) × (release_target four_pages iter ≡ some (0, 1)))
    ↔ ((get_num_super_pages four_pages 0 % 2 ≡ 1) ⊎ (1 % 2 ≡ 0))
release_target_iff_example = release_target_iff four_pages 0 1 (omega arith) (omega arith)
