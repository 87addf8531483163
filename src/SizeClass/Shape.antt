-- ===== src/SizeClass/Shape.antt =====
-- What the other parts use of a size class, and that every class of the filled table has it.
use sanitizers.Base.{
  every, every-get_or, ltb, leb, ◌==◌, ℕ, ◌+◌, ◌*◌, ◌/◌, ◌%◌, ◌^◌, ◌≤◌, ◌<◌, ◌≡◌, refl, Bool, true,
  not, ◌&&◌, ◌||◌, arith,
}
use sanitizers.Layout.{super_page_size, size_alignment_for_second_range}
use sanitizers.SizeClass.{
  num_size_classes, SizeClassDescr, zero_descr, chunk_size, div_mul_shift, compute_mul_for_div,
  div_by_size_via_mul, size_of_inline_meta,
}
use sanitizers.SizeClass.Table.{num_size_classes}
use sanitizers.SizeClass.DivMul.{bounded_error, div_by_size_via_mul-bounded}
use sanitizers.SizeClass.Filled.{filled_descrs}
use sanitizers.SizeClass.Lookup.{class_at}
use sanitizers.Util.{round_up_to}
use sanitizers.Util.Rounding.{round_up_to_bounds}

-- A size class that super pages can be made of.
pub record IsDescr (d : SizeClassDescr) : Type 0 where
  pub size_pos : 0 < chunk_size d
  pub some_chunk : 0 < d.num_chunks
  pub two_ranges : d.range_num ≤ 1
  pub fits :
      size_of_inline_meta d.num_chunks d.range_num + d.num_chunks * chunk_size d ≤ super_page_size
  pub second : d.range_num ≡ 1 → chunk_size d % size_alignment_for_second_range ≡ 0
  pub divides :
      (left : ℕ)
      → left ≤ super_page_size
      → div_by_size_via_mul left d.chunk_size_mul_div ≡ left / chunk_size d

abbrev shaped : SizeClassDescr → Bool
shaped d =
    bounded_error (chunk_size d)
    && (d.chunk_size_mul_div == compute_mul_for_div (chunk_size d) div_mul_shift)
    && ltb 0 d.num_chunks
    && leb d.range_num 1
    && leb (size_of_inline_meta d.num_chunks d.range_num + d.num_chunks * chunk_size d)
        super_page_size
    && (not (d.range_num == 1) || (chunk_size d % size_alignment_for_second_range == 0))

table_shaped : every shaped filled_descrs ≡ true
unfolding compute_mul_for_div size_of_inline_meta round_up_to
table_shaped = refl

IsDescr-shaped : (d : SizeClassDescr) → shaped d ≡ true → IsDescr d
IsDescr-shaped d h =
    let bounded : bounded_error (chunk_size d) ≡ true = ground arith in
    let same : d.chunk_size_mul_div ≡ compute_mul_for_div (chunk_size d) div_mul_shift =
      ground arith in
    record {
      size_pos = ground arith;
      some_chunk = ground arith;
      two_ranges = ground arith;
      fits = ground arith;
      second = λ e. ground arith;
      divides = λ left le. rw same (div_by_size_via_mul-bounded (chunk_size d) left bounded le);
    }

-- Every class of the table that `InitAll` fills has a positive size and at least one chunk, lies
-- in one of the two ranges (in the second with a multiple of 1024 bytes), has room for its chunks
-- and inline states in a super page, and divides offsets exactly by its multiplier.
pub class_at-IsDescr : (i : ℕ) → i < num_size_classes → IsDescr (class_at filled_descrs i)
class_at-IsDescr i h =
    IsDescr-shaped (class_at filled_descrs i)
      (every-get_or shaped filled_descrs i zero_descr table_shaped h)

-- Inline states take at least a byte for each chunk.
pub inline_meta-ge : (n : ℕ) → n < 2 ^ 32 → n ≤ size_of_inline_meta n 0
unfolding size_of_inline_meta
inline_meta-ge n h = (round_up_to_bounds 5 n (omega arith) (omega arith)).0
