-- ===== src/Layout.antt =====
-- The address ranges of memtagmalloc/src/mtmalloc.h.
use sanitizers.Base.{ℕ, ◌+◌, ◌/◌, ◌^◌, ◌==◌, if◌then◌else◌}

abbrev pub super_page_size : ℕ
super_page_size = 2 ^ 19

abbrev pub max_threads : ℕ
max_threads = 2 ^ 12

abbrev pub allocator_space : ℕ
allocator_space = 0x6000_0000_0000

abbrev pub allocator_size : ℕ
allocator_size = 2 ^ 37

abbrev pub primary_meta_space : ℕ
primary_meta_space = 0x7000_0000_0000

abbrev pub primary_meta_size : ℕ
primary_meta_size = allocator_size / super_page_size

abbrev pub second_range_meta_space : ℕ
second_range_meta_space = 0x7100_0000_0000

abbrev pub num_size_class_ranges : ℕ
num_size_class_ranges = 2

abbrev pub size_alignment_for_second_range : ℕ
size_alignment_for_second_range = 1024

-- `kMeta[RangeNum]`; there are two ranges.
abbrev pub meta : ℕ → ℕ
meta range_num =
    if range_num == 0 then primary_meta_space else primary_meta_space + primary_meta_size / 2

-- `kFirstSuperPage[RangeNum]`
abbrev pub first_super_page : ℕ → ℕ
first_super_page range_num =
    if range_num == 0 then allocator_space else allocator_space + allocator_size / 2

abbrev pub size_of_local_quarantine : ℕ
size_of_local_quarantine = 2 ^ 20
