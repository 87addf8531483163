-- ===== src/ShadowPages.antt =====
-- hwaddress-sanitizer/scan.cc: resident shadow pages are counted for the mappings of the user pages
-- that they describe. What is read from /proc is an argument.
pub mod Find
pub mod Count
pub mod Maps
pub mod Flags
use sanitizers.Base.{
  Outcome, ok, ◌>>=◌, ◌>>◌, check, ltb, leb, ◌==◌, if◌then◌else◌, add64, sub64, mul64, ℕ, zero, suc,
  ◌+◌, ◌-◌, ◌/◌, ◌%◌, ◌^◌, bit_and, Bool, not, ◌&&◌, Option, none, some, List, [], ◌∷◌, ◌++◌,
}

-- A name is its characters.
pub record Map : Type 0 where
  pub start : ℕ
  pub end_ : ℕ
  pub name : List ℕ
  pub rss : ℕ
  pub pss : ℕ
  pub shadow_pages : ℕ
  pub prot : ℕ

-- `std::lower_bound` with `compare`: the first mapping that does not end at `addr` or before. The
-- library's binary search gives the same on mappings that are sorted by their ends.
unfoldable pub lower_bound : List Map → ℕ → ℕ → Option (ℕ × Map)
lower_bound [] addr i = none
lower_bound (m ∷ ms) addr i =
    let rest = lower_bound ms addr (i + 1) in if leb m.end_ addr then rest else some (i, m)

-- The mapping with its index, which stands for the pointer.
unfoldable pub check_found : ℕ → Option (ℕ × Map) → Outcome (Option (ℕ × Map))
check_found addr none = ok none
check_found addr (some (i, m)) = do
  check (ltb addr m.end_)
  ok (if ltb addr m.start then none else some (i, m))

unfoldable pub find_map : List Map → ℕ → Outcome (Option (ℕ × Map))
find_map maps addr = check_found addr (lower_bound maps addr 0)

-- The loop of `do_magic` over the user pages of one shadow page: the mappings, `unknown_pages`, and
-- the index of `last_map`.
pub record Walk : Type 0 where
  pub maps : List Map
  pub unknown_pages : ℕ
  pub last_map : Option ℕ

-- `m->shadow_pages += n` for the mapping at an index.
unfoldable pub count_at : List Map → ℕ → ℕ → List Map
count_at [] i n = []
count_at (m ∷ ms) zero n = record m { shadow_pages = add64 m.shadow_pages n } ∷ ms
count_at (m ∷ ms) (suc i) n = m ∷ count_at ms i n

-- A mapping without the bits of `PROT_READ | PROT_WRITE` counts as none.
unfoldable pub readable : Option (ℕ × Map) → Option ℕ
readable none = none
readable (some (i, m)) = if bit_and m.prot 3 == 0 then none else some i

unfoldable pub visit : Walk → Option ℕ → Walk
visit w (some i) = record {
  maps = count_at w.maps i (add64 1 w.unknown_pages);
  unknown_pages = 0;
  last_map = some i;
}
visit w none = elim w.last_map [
  | some i ↦ record w { maps = count_at w.maps i 1 }
  | none ↦ record w { unknown_pages = add64 w.unknown_pages 1 }
]

-- The user pages from `user` on, `rounds` of them.
unfoldable pub walk_pages : ℕ → ℕ → Walk → Outcome Walk
walk_pages zero user w = ok w
walk_pages (suc rounds) user w = do
  found ← find_map w.maps user
  walk_pages rounds (add64 user 4096) (visit w (readable found))

-- The mappings after the shadow pages of a list, and the pages of no mapping.
unfoldable pub do_magic_from : ℕ → List ℕ → List Map → ℕ → Outcome (ℕ × List Map)
do_magic_from base [] maps unallocated = ok (unallocated, maps)
do_magic_from base (shadow ∷ shadows) maps unallocated = do
  let user0 = mul64 (sub64 shadow base) 16
  w ← walk_pages 16 user0 (record { maps = maps; unknown_pages = 0; last_map = none })
  do_magic_from base shadows w.maps (add64 unallocated w.unknown_pages)

unfoldable pub do_magic : ℕ → List Map → List ℕ → Outcome (ℕ × List Map)
do_magic base maps resident_shadow_pages = do_magic_from base resident_shadow_pages maps 0
