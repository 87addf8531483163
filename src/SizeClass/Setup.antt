-- ===== src/SizeClass/Setup.antt =====
-- The size class part of `InitAll`.
use sanitizers.Base.{
  every, Outcome, ok, ◌>>=◌, ltb, ◌==◌, if◌then◌else◌, ℕ, suc, ◌/◌, ◌%◌, ◌^◌, ◌≡◌, refl, ◌∙◌, Bool,
  true, ◌&&◌, some, List, [], ◌∷◌, arith,
}
use sanitizers.Layout.{size_alignment_for_second_range}
use sanitizers.Util.{round_up_to}
use sanitizers.SizeClass.{
  sc_array, SizeClassDescr, Descrs, div_mul_shift, compute_mul_for_div, size_of_inline_meta,
  num_chunks_from, compute_num_chunks, fix_up, fill_descr, init_size_classes,
}
use sanitizers.SizeClass.DivMul.{bounded_error, is_correct_div_to_mul-bounded}
use sanitizers.SizeClass.Filled.{filled_descrs}

-- What makes the loop body store a size as it stands.
abbrev storable : ℕ → Bool
storable d = bounded_error d && (d % 16 == 0) && ltb (d / 16) (2 ^ 16)

table_storable : every storable sc_array ≡ true
unfolding compute_mul_for_div
table_storable = refl

-- `fill_descr` with its checks passed.
fill_checked : ℕ → Outcome SizeClassDescr
fill_checked size = do
  let range_num = if size % size_alignment_for_second_range == 0 then 1 else 0
  num_chunks ← compute_num_chunks size range_num
  ok (record {
    range_num = range_num;
    num_chunks = num_chunks % 2 ^ 15;
    chunk_size_div16 = size / 16 % 2 ^ 16;
    chunk_size_mul_div = compute_mul_for_div size div_mul_shift % 2 ^ 32;
  })

fill_checked_all : List ℕ → Outcome Descrs
fill_checked_all [] = ok []
fill_checked_all (size ∷ sizes) = do d ← fill_checked size; ds ← fill_checked_all sizes; ok (d ∷ ds)

fix_up-storable : (fuel d : ℕ) → storable d ≡ true → fix_up (suc fuel) d ≡ some d
unfolding fix_up
fix_up-storable fuel d good = rw (is_correct_div_to_mul-bounded d (ground arith))

fill_descr-storable : (d : ℕ) → storable d ≡ true → fill_descr d ≡ fill_checked d
unfolding fill_descr fill_checked
fill_descr-storable d good =
    let aligned : (d % 16 == 0) ≡ true = ground arith in
    let small : ltb (d / 16) (2 ^ 16) ≡ true = ground arith in
    rw (aligned, small, is_correct_div_to_mul-bounded d (ground arith))

init-checked :
    (fuel : ℕ) (sizes : List ℕ)
    → every storable sizes ≡ true
    → init_size_classes (suc fuel) sizes ≡ some (fill_checked_all sizes)
unfolding init_size_classes fill_checked_all
init-checked fuel [] good = refl
init-checked fuel (size ∷ sizes) good = rw (
  fix_up-storable fuel size (ground arith),
  init_size_classes,
  init-checked fuel sizes (ground arith),
  fill_descr-storable size (ground arith),
)

checked_filled : fill_checked_all sc_array ≡ ok filled_descrs
unfolding fill_checked_all fill_checked compute_num_chunks num_chunks_from size_of_inline_meta
    round_up_to compute_mul_for_div
checked_filled = refl

-- `InitAll` stops at no assertion, fixes no size up (one round of fuel for each class is enough)
-- and fills `SCDescr` with the table `filled_descrs`.
pub init_size_classes-filled :
    (fuel : ℕ) → init_size_classes (suc fuel) sc_array ≡ some (ok filled_descrs)
init_size_classes-filled fuel = init-checked fuel sc_array table_storable ∙ rw checked_filled
