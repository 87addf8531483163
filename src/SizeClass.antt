-- ===== src/SizeClass.antt =====
-- memtagmalloc/src/mtmalloc_size_classes.h, and the size classes of mtmalloc.h: the table, the
-- lookup, division by multiplication, and the number of chunks of a super page.
mod Table
pub mod DivMul
pub mod Chunks
pub mod Filled
pub mod Setup
pub mod Lookup
pub mod Shape
pub use Table.*
use sanitizers.Base.{
  ℕ, zero, suc, ◌+◌, ◌-◌, ◌*◌, ◌/◌, ◌%◌, ◌^◌, Bool, true, false, not, ◌&&◌, List, [], ◌∷◌, Option,
  none, some, bit_and, ◌==◌, ltb, leb, if◌then◌else◌, u8, u32, u64, sub64, add64, get_or, length,
  Outcome, ok, trap, check, ◌>>=◌, ◌>>◌,
}
use sanitizers.Layout.{super_page_size, size_alignment_for_second_range}
use sanitizers.Util.{round_up_to}

pub record SizeClassDescr : Type 0 where
  pub range_num : ℕ
  pub num_chunks : ℕ
  pub chunk_size_div16 : ℕ
  pub chunk_size_mul_div : ℕ

-- `SCDescr` before `InitAll`, and what a read beyond its end gives here.
abbrev pub zero_descr : SizeClassDescr
zero_descr = record { range_num = 0; num_chunks = 0; chunk_size_div16 = 0; chunk_size_mul_div = 0 }

abbrev pub chunk_size : SizeClassDescr → ℕ
chunk_size d = d.chunk_size_div16 * 16

abbrev pub Descrs : Type 0
Descrs = List SizeClassDescr

-- The loop of `SizeToSizeClass`: the first class that fits, with its index.
unfoldable pub first_fit : ℕ → ℕ → Descrs → Option (ℕ × SizeClassDescr)
first_fit size idx [] = none
first_fit size idx (d ∷ ds) =
    let rest = first_fit size (idx + 1) ds in
    if leb size (chunk_size d) then some (idx, d) else rest

unfoldable pub size_to_size_class : Descrs → ℕ → ℕ × SizeClassDescr
size_to_size_class descrs size =
    if leb size 256
    then (let sc = u8 (sub64 (add64 size 15 / 16) 1) in (sc, get_or descrs sc zero_descr))
    else elim (first_fit size 0 descrs) [
      | some (idx, d) ↦ (u8 idx, d)
      | none ↦ (0, get_or descrs 0 zero_descr)
    ]

unfoldable pub size_class_to_size : Descrs → ℕ → ℕ
size_class_to_size descrs sc = chunk_size (get_or descrs sc zero_descr)

abbrev pub div_mul_shift : ℕ
div_mul_shift = 35

unfoldable pub compute_mul_for_div : ℕ → ℕ → ℕ
compute_mul_for_div div shift =
    let mul = u32 (2 ^ shift / div) in if bit_and div (div - 1) == 0 then mul else u32 (mul + 1)

-- The loop of `IsCorrectDivToMul` from `left` on, with `rounds` values to go.
unfoldable pub is_correct_from : ℕ → ℕ → ℕ → ℕ → ℕ → Bool
is_correct_from zero left div mul shift = true
is_correct_from (suc rounds) left div mul shift =
    let rest = is_correct_from rounds (left + 1) div mul shift in
    if u32 (left / div) == u32 (u64 (left * mul) / 2 ^ shift) then rest else false

unfoldable pub is_correct_div_to_mul : ℕ → ℕ → ℕ → ℕ → Bool
is_correct_div_to_mul div mul shift max_left = is_correct_from max_left 1 div mul shift

unfoldable pub div_by_size_via_mul : ℕ → ℕ → ℕ
div_by_size_via_mul left div_mul = u32 (u64 (left * div_mul) / 2 ^ div_mul_shift)

abbrev pub state_array_alignment : ℕ
state_array_alignment = 32

unfoldable pub size_of_inline_meta : ℕ → ℕ → ℕ
size_of_inline_meta num_chunks range_num =
    if range_num == 1 then 0 else round_up_to num_chunks state_array_alignment

-- The loop of `ComputeNumChunks` from `num_chunks` down.
unfoldable pub num_chunks_from : ℕ → ℕ → ℕ → Outcome ℕ
num_chunks_from chunk_size range_num zero = trap
num_chunks_from chunk_size range_num (suc n) =
    let rest = num_chunks_from chunk_size range_num n in
    if leb (size_of_inline_meta (suc n) range_num + suc n * chunk_size) super_page_size
    then ok (suc n)
    else rest

unfoldable pub compute_num_chunks : ℕ → ℕ → Outcome ℕ
compute_num_chunks chunk_size range_num =
    num_chunks_from chunk_size range_num (super_page_size / chunk_size)

-- The loop of `InitAll` that enlarges a size until `IsCorrectDivToMul` holds; it has no bound in
-- the source, and `fuel` bounds it here.
unfoldable pub fix_up : ℕ → ℕ → Option ℕ
fix_up zero chunk_size = none
fix_up (suc fuel) chunk_size =
    let rest = fix_up fuel (chunk_size + size_alignment_for_second_range) in
    if is_correct_div_to_mul chunk_size (compute_mul_for_div chunk_size div_mul_shift) div_mul_shift
      super_page_size
    then some chunk_size
    else rest

-- The assignments to `SCDescr[i]`, each cut to the width of its bit field.
unfoldable pub fill_descr : ℕ → Outcome SizeClassDescr
fill_descr chunk_size = do
  check (chunk_size % 16 == 0)
  check (ltb (chunk_size / 16) (2 ^ 16))
  let range_num = if chunk_size % size_alignment_for_second_range == 0 then 1 else 0
  num_chunks ← compute_num_chunks chunk_size range_num
  let mul = compute_mul_for_div chunk_size div_mul_shift
  check (is_correct_div_to_mul chunk_size mul div_mul_shift super_page_size)
  ok (record {
    range_num = range_num;
    num_chunks = num_chunks % 2 ^ 15;
    chunk_size_div16 = chunk_size / 16 % 2 ^ 16;
    chunk_size_mul_div = mul % 2 ^ 32;
  })

-- The loop of `InitAll` over the size classes. The outer `none`: the fuel ran out.
unfoldable pub init_size_classes : ℕ → List ℕ → Option (Outcome Descrs)
init_size_classes fuel [] = some (ok [])
init_size_classes fuel (size ∷ sizes) =
    let rest = init_size_classes fuel sizes in
    elim (fix_up fuel size) [
      | none ↦ none
      | some chunk_size ↦ elim rest [
        | none ↦ none
        | some later ↦ some (do d ← fill_descr chunk_size; ds ← later; ok (d ∷ ds))
      ]
    ]
