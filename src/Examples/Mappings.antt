-- ===== src/Examples/Mappings.antt =====
-- Large chunks and mappings at concrete inputs.
use sanitizers.Base.{
  length, Mem, ok, trap, ℕ, zero, suc, ◌+◌, ◌-◌, ◌*◌, ◌%◌, ◌^◌, ◌≤◌, ◌<◌, ◌≡◌, refl, ◌⊎◌, true,
  false, none, some, List, [], ◌∷◌, arith, Option, ltb,
}
use sanitizers.Util.{round_up_to}
use sanitizers.Large.{
  Mmap, slack_for_alignment, effective_alignment, mapping_length, large_allocate, large_chunk_size,
}
use sanitizers.Large.Alloc.{mapped, power, Placed, large_allocate-Placed}
use sanitizers.Large.Wrap.{large_allocate-wraps}
use sanitizers.ShadowPages.{
  Map, lower_bound, check_found, find_map, count_at, readable, visit, walk_pages, do_magic_from,
  do_magic,
}
use sanitizers.ShadowPages.Maps.{
  Line, header, rss_line, pss_line, other_line, make_map, read_lines, with_current, read_maps,
  find_shadows, low_shadow_name,
}
use sanitizers.ShadowPages.Maps.Sections.{
  Section, has_rss, has_pss, ignored, read_sections, read_maps-eq-read_sections,
}
use sanitizers.ShadowPages.Flags.{
  find_flags, scan_pages, is_pushed, zero_page, get_flags, looked_up, load_flags, found_or,
}
use sanitizers.ShadowPages.Flags.Found.{IsCopy, Found, scan_pages-Found}
use sanitizers.Base.{trap, if◌then◌else◌, ◌==◌}
use sanitizers.ShadowPages.Find.{map_at, IsSorted, holds, find_map_lem}
use sanitizers.ShadowPages.Count.{total, do_magic-total}
use sanitizers.Examples.Pages.{fresh}

-- A system whose mappings begin at one address.
abbrev at_top : Mmap
at_top m n = (0x7f00_0000_0000, m)

length_known : mapping_length 5000 (2 ^ 16) ≡ 77824
unfolding mapping_length slack_for_alignment effective_alignment round_up_to
length_known = refl

large_allocate-Placed_example :
    ((at_top fresh (mapping_length 5000 (2 ^ 16))).0 ≡ 2 ^ 64 - 1)
      × (large_allocate at_top fresh 5000 (2 ^ 16) ≡ trap)
    ⊎ ((ret : ℕ) × (cut : List (ℕ × ℕ)) × (m' : Mem) × (large_allocate at_top fresh 5000 (2 ^ 16)
          ≡ ok (ret, cut, m'))
        × Placed
            ((at_top fresh (mapping_length 5000 (2 ^ 16))).0)
            (mapping_length 5000 (2 ^ 16))
            5000
            16
            ret
            cut
            m')
large_allocate-Placed_example =
    large_allocate-Placed at_top fresh (omega arith) (power {k = 16} (omega arith) (omega arith))
      (mapped 0x7f00_0000_0000 refl (omega (arith, length_known)))

large_allocate-wraps_example :
    (ret : ℕ) × (cut : List (ℕ × ℕ)) × (m' : Mem) × (large_allocate at_top fresh
        (2 ^ 64 - 1)
        (2 ^ 12)
      ≡ ok (ret, cut, m'))
    × (large_chunk_size m' ret ≡ ok 0)
large_allocate-wraps_example =
    large_allocate-wraps at_top fresh {size = 2 ^ 64 - 1} (omega arith) (omega arith) refl
      (omega arith)

-- Two mappings with a gap.
abbrev low_map : Map
low_map = record {
  start = 4096;
  end_ = 12288;
  name = [];
  rss = 8;
  pss = 8;
  shadow_pages = 0;
  prot = 3;
}

abbrev high_map : Map
high_map = record {
  start = 20480;
  end_ = 65536;
  name = [];
  rss = 8;
  pss = 8;
  shadow_pages = 0;
  prot = 1;
}

abbrev maps : List Map
maps = low_map ∷ high_map ∷ []

maps-IsSorted : IsSorted maps
maps-IsSorted = record { apart = apart_below }
  where
    apart_below : (i j : ℕ) → i < j → j < length maps → (map_at maps i).end_ ≤ (map_at maps j).start
    apart_below zero zero h h' = absurd (omega arith)
    apart_below zero (suc zero) h h' = omega arith
    apart_below (suc i) (suc zero) h h' = absurd (omega arith)
    apart_below i (suc (suc j)) h h' = absurd (omega arith)
    apart_below (suc i) zero h h' = absurd (omega arith)

find_map_lem_example :
    ((i : ℕ) × (find_map maps 24576 ≡ ok (some (i, map_at maps i)))
      × (i < length maps)
      × (holds (map_at maps i) 24576 ≡ true))
    ⊎ ((find_map maps 24576 ≡ ok none)
        × ((i : ℕ) → i < length maps → holds (map_at maps i) 24576 ≡ false))
find_map_lem_example = find_map_lem maps 24576 maps-IsSorted

find_map_high : find_map maps 24576 ≡ ok (some (1, high_map))
unfolding find_map check_found lower_bound
find_map_high = refl

do_magic-total_example :
    (u : ℕ) × (maps' : List Map) × (do_magic 0 maps (0 ∷ 4096 ∷ []) ≡ ok (u, maps'))
    × ((total maps' + u) % 2 ^ 64 ≡ (total maps + 16 * length {A = ℕ} (0 ∷ 4096 ∷ [])) % 2 ^ 64)
    × (length maps' ≡ length maps)
do_magic-total_example = do_magic-total 0 maps (0 ∷ 4096 ∷ [])

-- The pages of the first shadow page: one before the mappings, the others in or behind them; those
-- of the second are all behind.
do_magic_run :
    do_magic 0 maps (0 ∷ 4096 ∷ [])
    ≡ ok (16, record low_map { shadow_pages = 5 } ∷ record high_map { shadow_pages = 11 } ∷ [])
unfolding do_magic do_magic_from walk_pages visit readable count_at find_map check_found lower_bound
do_magic_run = refl

-- A file with two headers; a line is its own index here.
abbrev sample : List Section
sample =
    record {
      start = 4096;
      end_ = 12288;
      permissions = 114 ∷ 119 ∷ 45 ∷ [];
      name = 97 ∷ [];
      attributes = ignored ∷ has_rss 8 ∷ has_pss 4 ∷ [];
    }
    ∷ record {
      start = 20480;
      end_ = 65536;
      permissions = 45 ∷ 45 ∷ 120 ∷ [];
      name = [];
      attributes = [];
    }
    ∷ []

abbrev sample_parse : List ℕ → Line
sample_parse [] = other_line
sample_parse (zero ∷ _) = header 4096 12288 (114 ∷ 119 ∷ 45 ∷ []) (97 ∷ [])
sample_parse (suc zero ∷ _) = other_line
sample_parse (suc (suc zero) ∷ _) = rss_line 8
sample_parse (suc (suc (suc zero)) ∷ _) = pss_line 4
sample_parse (suc (suc (suc (suc n))) ∷ _) = header 20480 65536 (45 ∷ 45 ∷ 120 ∷ []) []

abbrev sample_lines : List (List ℕ)
sample_lines = (0 ∷ []) ∷ (1 ∷ []) ∷ (2 ∷ []) ∷ (3 ∷ []) ∷ (4 ∷ []) ∷ []

read_maps-eq-read_sections_example : read_maps sample_parse sample_lines ≡ read_sections sample
read_maps-eq-read_sections_example =
    read_maps-eq-read_sections sample_parse sample_lines sample refl

sample_run :
    read_sections sample
    ≡ ok (
        record {
          start = 4096;
          end_ = 12288;
          name = 97 ∷ [];
          rss = 8;
          pss = 4;
          shadow_pages = 0;
          prot = 3;
        }
        ∷ record {
          start = 20480;
          end_ = 65536;
          name = [];
          rss = 0;
          pss = 0;
          shadow_pages = 0;
          prot = 4;
        }
        ∷ [])
unfolding make_map
sample_run = refl

-- A size before any header stops the program.
size_first : read_lines (rss_line 8 ∷ []) [] none ≡ trap
unfolding read_lines with_current
size_first = refl

-- The last mapping of a name is taken.
two_names :
    find_shadows
      (record low_map { name = low_shadow_name } ∷ record high_map { name = low_shadow_name } ∷ [])
      (none, none)
    ≡ (some (record high_map { name = low_shadow_name }), none)
unfolding find_shadows
two_names = refl

-- The file holds the flags of the page frames below 8; frame 7 is the zero page.
abbrev kpageflags : ℕ → Option ℕ
kpageflags pfn = if pfn == 7 then some (2 ^ 24) else if ltb pfn 8 then some 0 else none

nothing_kept : IsCopy kpageflags []
unfolding find_flags
nothing_kept pfn x e = cc

-- Two entries of one resident page frame, one of the zero page, and one that is not resident.
abbrev entries : List ℕ
entries = (2 ^ 63 + 5) ∷ (2 ^ 63 + 5) ∷ (2 ^ 63 + 7) ∷ 9 ∷ []

scan_pages-Found_example :
    Found kpageflags 4096 entries [] (scan_pages kpageflags [] 4096 entries [])
scan_pages-Found_example = scan_pages-Found kpageflags [] 4096 entries [] nothing_kept

-- Both entries of the first page frame are found; its flags are read once, those of the last entry,
-- which is not resident, never.
scan_run :
    scan_pages kpageflags [] 4096 entries [] ≡ ok (4096 ∷ 8192 ∷ [], (7, 2 ^ 24) ∷ (5, 0) ∷ [])
unfolding scan_pages is_pushed zero_page get_flags looked_up load_flags find_flags found_or
scan_run = refl

-- A resident page whose flags cannot be read.
scan_stops : scan_pages kpageflags [] 4096 ((2 ^ 63 + 9) ∷ []) [] ≡ trap
unfolding scan_pages is_pushed zero_page get_flags looked_up load_flags find_flags found_or
scan_stops = refl
