-- ===== src/Shadow.antt =====
-- memtagmalloc/src/mtmalloc_shadow.h: `FixedShadow`, a byte for each granule of a range. The
-- template parameters are a record. (`Init` only maps the range and is not modelled.)
pub mod Laws
use sanitizers.Base.{
  Mem, store8, Outcome, ok, ◌>>=◌, ◌>>◌, trap_if, ltb, leb, ◌==◌, add64, sub64, mul64, ℕ, zero, suc,
  ◌+◌, ◌/◌, ◌%◌, Bool, not, ◌&&◌,
}
use sanitizers.Layout.{
  super_page_size, allocator_space, allocator_size, primary_meta_space, second_range_meta_space,
  size_alignment_for_second_range, first_super_page,
}

pub record FixedShadow : Type 0 where
  pub shadow_beg : ℕ
  pub beg : ℕ
  pub size : ℕ
  pub granularity : ℕ
  pub unit_size : ℕ

unfoldable pub is_mine : FixedShadow → ℕ → Bool
is_mine s val = leb s.beg val && ltb val (s.beg + s.size)

unfoldable pub get_shadow_ptr : FixedShadow → ℕ → ℕ
get_shadow_ptr s val = add64 s.shadow_beg (mul64 s.unit_size (sub64 val s.beg) / s.granularity)

unfoldable pub get : FixedShadow → Mem → ℕ → ℕ
get s m val = m (get_shadow_ptr s val)

-- `Check`: a value that is no multiple of the granularity traps.
unfoldable pub check_granule : FixedShadow → ℕ → Outcome (Unit {0})
check_granule s val = trap_if (not (val % s.granularity == 0))

-- The byte is written twice, through the pointer and by index.
unfoldable pub put : FixedShadow → Mem → ℕ → ℕ → Outcome Mem
put s m val shadow = do
  check_granule s val
  let m' = store8 m (get_shadow_ptr s val) shadow
  ok (store8 m' (add64 s.shadow_beg (mul64 s.unit_size (sub64 val s.beg) / s.granularity)) shadow)

-- The loop of `SetRange`: `rounds` shadow bytes from `pos` on.
unfoldable pub fill : ℕ → Mem → ℕ → ℕ → Mem
fill zero m pos v = m
fill (suc rounds) m pos v = fill rounds (store8 m pos v) (pos + 1) v

unfoldable pub put_range : FixedShadow → Mem → ℕ → ℕ → ℕ → Outcome Mem
put_range s m beg size v = do
  check_granule s beg
  check_granule s size
  ok (fill (size / s.granularity) m (get_shadow_ptr s beg) v)

-- The instances of mtmalloc.h and mtmalloc_tags.h.
abbrev pub super_page_metadata : FixedShadow
super_page_metadata = record {
  shadow_beg = primary_meta_space;
  beg = allocator_space;
  size = allocator_size;
  granularity = super_page_size;
  unit_size = 1;
}

abbrev pub second_range_meta : FixedShadow
second_range_meta = record {
  shadow_beg = second_range_meta_space;
  beg = first_super_page 1;
  size = allocator_size / 2;
  granularity = super_page_size;
  unit_size = super_page_size / size_alignment_for_second_range;
}

abbrev pub small_shadow : FixedShadow
small_shadow = record {
  shadow_beg = 0x3000_0000_0000;
  beg = allocator_space;
  size = allocator_size / 2;
  granularity = 16;
  unit_size = 1;
}

abbrev pub large_shadow : FixedShadow
large_shadow = record {
  shadow_beg = 0x4000_0000_0000;
  beg = allocator_space + allocator_size / 2;
  size = allocator_size / 2;
  granularity = size_alignment_for_second_range;
  unit_size = 1;
}
